-- ===== src/Memory/Entries.antt =====
-- What is found under a key of the memory provider.
use mathlib.Core.List.{append_assoc}
use open_simple_agent.Base.Dict.{get}
use open_simple_agent.Memory.Provider.{Provider, store, load, make_key, purge, purge_expired}
use open_simple_agent.Base.{[], if◌then◌else◌, none, ◌++◌, ◌∷◌, ◌≡◌}
use open_simple_agent.Base.Clock.{Time}
use open_simple_agent.Base.Same.{nat_eq, option_eq, pair_eq, ◌==◌}
use open_simple_agent.Base.Text.{Text, text, text_eq}
use open_simple_agent.Memory.{MemoryEntry, MemoryScope}
use open_simple_agent.Base.{Bool-cases, ap, inl, inr, or_default, refl, sym}
use open_simple_agent.Base.Dict.{get-put}
use open_simple_agent.Base.Text.{text_same_iff}
use open_simple_agent.Memory.{scope_text}
use open_simple_agent.Base.{◌∙◌}
use open_simple_agent.Base.Same.{same_refl}

-- Without retention, a load after a store finds the stored entry after all that a load found
-- before if both have the same key; under a key that differs it finds what it found before.
pub load-store :
    (p : Provider) (e : MemoryEntry) (key : Text) (scope : MemoryScope) (scope_id : Text)
    (now : Time)
    → p.retention_days ≡ none
    → (load (store p e) key scope scope_id now).1 ≡ (
        if make_key e.key e.scope e.scope_id == make_key key scope scope_id
        then (load p key scope scope_id now).1 ++ (e ∷ [])
        else (load p key scope scope_id now).1)
unfolding load store purge_expired purge
load-store p e key scope scope_id now keeps =
    let full_key = make_key e.key e.scope e.scope_id in
    let bucket = or_default (get p.entries full_key) [] ++ (e ∷ []) in
    rw (keeps, get-put p.entries full_key (make_key key scope scope_id) bucket)
      (elim (Bool-cases (full_key == make_key key scope scope_id)) [
        | inr other ↦ rw other refl
        | inl same ↦ rw (same, (text_same_iff full_key (make_key key scope scope_id)).0 same) refl
      ])

-- The key `b:c` under identifier `a` and the key `c` under identifier `a:b` are one full key.
make_key_same :
    (scope : MemoryScope) (a b c : Text)
    → make_key (b ++ (text ":" ++ c)) scope a ≡ make_key c scope (a ++ (text ":" ++ b))
unfolding make_key
make_key_same scope a b c = sym (
    ap (λ (r : Text). scope_text scope ++ (text ":" ++ r))
      (append_assoc a (text ":" ++ b) (text ":" ++ c)))

-- Without retention, an entry that is stored with the key `b:c` for the identifier `a` is loaded, after
-- what was there, with the key `c` for the identifier `a:b` of the same scope.
pub make_key_ambiguous :
    (p : Provider) (e : MemoryEntry) (b c : Text) (now : Time)
    → p.retention_days ≡ none
    → e.key ≡ b ++ (text ":" ++ c)
    → let other = e.scope_id ++ (text ":" ++ b) in
      (load (store p e) c e.scope other now).1 ≡ (load p c e.scope other now).1 ++ (e ∷ [])
make_key_ambiguous p e b c now keeps spelled =
    let other = e.scope_id ++ (text ":" ++ b) in
    let same : make_key e.key e.scope e.scope_id ≡ make_key c e.scope other =
      ap (λ k. make_key k e.scope e.scope_id) spelled ∙ make_key_same e.scope e.scope_id b c in
    load-store p e c e.scope other now keeps ∙ rw (same, same_refl (make_key c e.scope other)) refl
