-- ===== src/Session/Isolation.antt =====
-- What the calls of others can do to a session.
use open_simple_agent.Session.Manager.{
  create, resolve, get_runtime_view, save, delete, purge_expired,
}
use open_simple_agent.Base.Dict
use open_simple_agent.Base.{List, Option, [], arith, false, some, ℕ, ◌∷◌, ◌≡◌, ◌≢◌}
use open_simple_agent.Base.Clock.{Time}
use open_simple_agent.Base.Dict.{Dict, get-erase, get-put}
use open_simple_agent.Base.Same.{nat_eq, option_eq, pair_eq}
use open_simple_agent.Base.Text.{Text, text_eq, text_same_iff}
use open_simple_agent.Session.{Caller, Session, matches_owner}
use open_simple_agent.Session.Manager.{Manager}
use open_simple_agent.Base.{Bool, Bool-cases, ap, inl, inr, none, refl, true, ◌∙◌}
use open_simple_agent.Base.Dict.{erase-IsUnique, erase_all-IsUnique, get-erase_where, put-IsUnique}
use open_simple_agent.Base.Lists.{All}
use open_simple_agent.Session.{is_expired}
use open_simple_agent.Session.Manager.{delete_found, resolve_found, runtime_view_found}

-- a call of the provider by somebody, with what it is given
pub data Call : Type 0 where
  creates : Text → Caller → Option ℕ → ℕ → Call
  resolves : Text → Caller → Call
  views : Text → Call
  saves : Session → Call
  deletes : Text → Caller → Call
  purges : Call

unfoldable pub run : Manager → Call → Time → Manager
run m (creates session_id c ttl_seconds bound) now = (create m session_id c ttl_seconds bound now).0
run m (resolves session_id c) now = (resolve m session_id c now).0
run m (views session_id) now = (get_runtime_view m session_id now).0
run m (saves s) now = save m s now
run m (deletes session_id c) now = (delete m session_id c).0
run m purges now = (purge_expired m now).0

unfoldable pub run_all : Manager → List (Call × Time) → Manager
run_all m [] = m
run_all m ((call, now) ∷ calls) = run_all (run m call now) calls

-- A new identifier or a saved session is another one than this, and a caller who deletes is not its
-- owner. Anybody may resolve or view. A save of this identifier is not among these calls, since the
-- manager does not check who saves.
abbrev pub IsForeign : Session → Call → Type 0
IsForeign s (creates session_id c ttl_seconds bound) = session_id ≢ s.session_id
IsForeign s (resolves session_id c) = Unit
IsForeign s (views session_id) = Unit
IsForeign s (saves other) = other.session_id ≢ s.session_id
IsForeign s (deletes session_id c) = matches_owner s c ≡ false
IsForeign s purges = Unit

-- the same object under the same key
abbrev pub Holds : Manager → Session → Type 0
Holds m s = Dict.IsUnique m × (Dict.get m s.session_id ≡ some s)

get-erase_ne : (m : Manager) (k j : Text) → k ≢ j → Dict.get (Dict.erase m k) j ≡ Dict.get m j
get-erase_ne m k j ne = rw (get-erase m k j) (ground (arith, text_same_iff k j))

get-put_ne :
    (m : Manager) (k j : Text) (s : Session) → k ≢ j → Dict.get (Dict.put m k s) j ≡ Dict.get m j
get-put_ne m k j s ne = rw (get-put m k j s) (ground (arith, text_same_iff k j))

-- erasing what is stored under one key keeps a session that is not this one
erase-Holds :
    (m : Manager) (id : Text) (s other : Session)
    → Holds m s
    → Dict.get m id ≡ some other
    → other ≢ s
    → Holds (Dict.erase m id) s
erase-Holds m id s other (unique, stored) found ne =
    let elsewhere : id ≢ s.session_id =
      λ e. ne (cc (found, stored, ap (λ (k : Text). Dict.get m k) e)) in
    (erase-IsUnique m id unique, get-erase_ne m id s.session_id elsewhere ∙ stored)

put-Holds :
    (m : Manager) (id : Text) (s other : Session)
    → Holds m s
    → id ≢ s.session_id
    → Holds (Dict.put m id other) s
put-Holds m id s other (unique, stored) ne =
    (put-IsUnique m id other unique, get-put_ne m id s.session_id other ne ∙ stored)

different_by {ℓ} : {A : Type ℓ} (test : A → Bool) (a b : A) → test a ≡ true → test b ≡ false → a ≢ b
different_by test a b yes_a not_b e = cc (yes_a, not_b, ap test e)

resolve-Holds :
    (m : Manager) (id : Text) (c : Caller) (s : Session) (now : Time)
    → is_expired s now ≡ false
    → Holds m s
    → (o : Option Session) → Dict.get m id ≡ o
    → Holds (resolve_found m id c now o).0 s
unfolding resolve_found
resolve-Holds m id c s now live h none found = h
resolve-Holds m id c s now live h (some other) found = elim (Bool-cases (is_expired other now)) [
  | inl old ↦
      rw old
        (erase-Holds m id s other h found (different_by (λ x. is_expired x now) other s old live))
  | inr fresh ↦ elim (Bool-cases (matches_owner other c)) [
    | inl own ↦ rw (fresh, own) h
    | inr denied ↦ rw (fresh, denied) h
  ]
]

view-Holds :
    (m : Manager) (id : Text) (s : Session) (now : Time)
    → is_expired s now ≡ false
    → Holds m s
    → (o : Option Session) → Dict.get m id ≡ o
    → Holds (runtime_view_found m id now o).0 s
unfolding runtime_view_found
view-Holds m id s now live h none found = h
view-Holds m id s now live h (some other) found = elim (Bool-cases (is_expired other now)) [
  | inl old ↦
      rw old
        (erase-Holds m id s other h found (different_by (λ x. is_expired x now) other s old live))
  | inr fresh ↦ rw fresh h
]

delete-Holds :
    (m : Manager) (id : Text) (c : Caller) (s : Session)
    → matches_owner s c ≡ false
    → Holds m s
    → (o : Option Session) → Dict.get m id ≡ o
    → Holds (delete_found m id c o).0 s
unfolding delete_found
delete-Holds m id c s foreign h none found = h
delete-Holds m id c s foreign h (some other) found = elim (Bool-cases (matches_owner other c)) [
  | inl own ↦
      rw own (
        erase-Holds m id s other h found
          (different_by (λ x. matches_owner x c) other s own foreign))
  | inr denied ↦ rw denied h
]

purge-Holds :
    (m : Manager) (s : Session) (now : Time)
    → is_expired s now ≡ false
    → Holds m s
    → Holds (purge_expired m now).0 s
unfolding purge_expired
purge-Holds m s now live (unique, stored) = (
  erase_all-IsUnique m (Dict.keys_where (λ x. is_expired x now) m) unique,
  get-erase_where (λ x. is_expired x now) m s.session_id unique ∙ rw (stored, live),
)

run-Holds :
    (m : Manager) (s : Session) (call : Call) (now : Time)
    → is_expired s now ≡ false
    → IsForeign s call
    → Holds m s
    → Holds (run m call now) s
unfolding run create resolve get_runtime_view save delete
run-Holds m s (creates id c ttl bound) now live foreign h = put-Holds m id s _ h foreign
run-Holds m s (resolves id c) now live foreign h =
    resolve-Holds m id c s now live h (Dict.get m id) refl
run-Holds m s (views id) now live foreign h = view-Holds m id s now live h (Dict.get m id) refl
run-Holds m s (saves other) now live foreign h = put-Holds m other.session_id s _ h foreign
run-Holds m s (deletes id c) now live foreign h =
    delete-Holds m id c s foreign h (Dict.get m id) refl
run-Holds m s purges now live foreign h = purge-Holds m s now live h

-- A session stays in the store, unchanged, under calls in any number and order, all made before it
-- expires: creations under other identifiers, resolves and views of any session by anybody, saves of
-- sessions with other identifiers (`save` asks for no owner), deletions by callers who do not own
-- the session, and purges.
pub foreign_calls_harmless :
    (m : Manager) (s : Session) (calls : List (Call × Time))
    → Holds m s
    → All (λ call. IsForeign s call.0 × (is_expired s call.1 ≡ false)) calls
    → Holds (run_all m calls) s
unfolding run_all
foreign_calls_harmless m s [] h all = h
foreign_calls_harmless m s ((call, now) ∷ calls) h ((foreign, live), rest) =
    foreign_calls_harmless (run m call now) s calls (run-Holds m s call now live foreign h) rest

-- After a purge exactly the sessions that have not expired are there, each as it was.
pub purge_exact :
    (m : Manager) (now : Time) (session_id : Text)
    → Dict.IsUnique m
    → Dict.get (purge_expired m now).0 session_id
      ≡ Dict.unless (λ s. is_expired s now) (Dict.get m session_id)
unfolding purge_expired
purge_exact m now session_id unique = get-erase_where (λ s. is_expired s now) m session_id unique
