-- ===== src/Base/Dict.antt =====
-- A Python dictionary: an association list in insertion order. Assigning to a key that is there
-- keeps its place.
use mathlib.Core.Path.{◌≡◌, refl}
use mathlib.Core.Option.{Option, none, some}
use mathlib.Core.List.{List, [], ◌∷◌}
use native.Mathlib.Omega.{arith}
use open_simple_agent.Base.Tests.{if◌then◌else◌, Bool-cases, Option-cases}
use open_simple_agent.Base.Lists.{any}
use mathlib.Core.Path.{◌∙◌}
use mathlib.Core.Bool.{Bool, false}
use mathlib.Core.Logic.{inl, inr}
use open_simple_agent.Base.Same.{Same, ◌==◌, same_refl}

abbrev pub Dict {ℓ} : Type ℓ → Type ℓ → Type ℓ
Dict K V = List (K × V)

pub different_sym {ℓ} : {K : Type ℓ} ⦃e : Same K⦄ (a b : K) → (a == b) ≡ false → (b == a) ≡ false
different_sym ⦃e⦄ a b h = ground (arith, e.same_iff a b, e.same_iff b a)

module _ {ℓ} {K V : Type ℓ} ⦃e : Same K⦄ where
  -- `d.get(k)`
  unfoldable pub get : Dict K V → K → Option V
  get [] k = none
  get ((j, v) ∷ d) k = if j == k then some v else get d k

  -- `d[k] = v`
  unfoldable pub put : Dict K V → K → V → Dict K V
  put [] k v = (k, v) ∷ []
  put ((j, w) ∷ d) k v = if j == k then (j, v) ∷ d else (j, w) ∷ put d k v

  -- `del d[k]`, `d.pop(k, None)`
  unfoldable pub erase : Dict K V → K → Dict K V
  erase [] k = []
  erase ((j, w) ∷ d) k = if j == k then erase d k else (j, w) ∷ erase d k

  pub get-put :
      (d : Dict K V) (k j : K) (v : V) → get (put d k v) j ≡ (if k == j then some v else get d j)
  unfolding get put
  get-put [] k j v = refl
  get-put ((i, w) ∷ d) k j v =
      ground (arith, e.same_iff i k, e.same_iff i j, e.same_iff k j, get-put d k j v)

  pub get-put_self : (d : Dict K V) (k : K) (v : V) → get (put d k v) k ≡ some v
  get-put_self d k v = rw (get-put d k k v) (rw (same_refl k))

  pub get-erase : (d : Dict K V) (k j : K) → get (erase d k) j ≡ (if k == j then none else get d j)
  unfolding get erase
  get-erase [] k j = ground arith
  get-erase ((i, w) ∷ d) k j =
      ground (arith, e.same_iff i k, e.same_iff i j, e.same_iff k j, get-erase d k j)

-- `list(d.values())`
abbrev pub values {ℓ} : {K V : Type ℓ} → Dict K V → List V
values [] = []
values ((_, v) ∷ d) = v ∷ values d

-- an entry that passes the test is dropped
abbrev pub unless {ℓ} : {V : Type ℓ} → (V → Bool) → Option V → Option V
unless test none = none
unless test (some v) = if test v then none else some v

module _ {ℓ} {K V : Type ℓ} ⦃e : Same K⦄ where
  -- No key stands twice, as in every Python dictionary.
  abbrev pub IsUnique : Dict K V → Type ℓ
  IsUnique [] = Unit
  IsUnique ((k, _) ∷ d) = (get d k ≡ none) × IsUnique d

  pub put-IsUnique : (d : Dict K V) (k : K) (v : V) → IsUnique d → IsUnique (put d k v)
  unfolding get put
  put-IsUnique [] k v h = (refl, tt)
  put-IsUnique ((j, w) ∷ d) k v (fresh, rest) = elim (Bool-cases (j == k)) [
    | inl same ↦ rw same (fresh, rest)
    | inr other ↦
        rw other (get-put d k j v ∙ (rw (different_sym j k other) fresh), put-IsUnique d k v rest)
  ]

  pub erase-IsUnique : (d : Dict K V) (k : K) → IsUnique d → IsUnique (erase d k)
  unfolding get erase
  erase-IsUnique [] k h = tt
  erase-IsUnique ((j, w) ∷ d) k (fresh, rest) = elim (Bool-cases (j == k)) [
    | inl same ↦ rw same (erase-IsUnique d k rest)
    | inr other ↦
        rw other (get-erase d k j ∙ (rw (different_sym j k other) fresh), erase-IsUnique d k rest)
  ]

  -- `for k in ks: del d[k]`
  unfoldable pub erase_all : Dict K V → List K → Dict K V
  erase_all d [] = d
  erase_all d (k ∷ ks) = erase_all (erase d k) ks

  -- `[k for k, v in d.items() if test(v)]`
  unfoldable pub keys_where : (V → Bool) → Dict K V → List K
  keys_where test [] = []
  keys_where test ((k, v) ∷ d) = if test v then k ∷ keys_where test d else keys_where test d

  get-erase_all :
      (d : Dict K V) (ks : List K) (j : K)
      → get (erase_all d ks) j ≡ (if any (λ k. k == j) ks then none else get d j)
  unfolding erase_all
  get-erase_all d [] j = refl
  get-erase_all d (k ∷ ks) j = ground (arith, get-erase_all (erase d k) ks j, get-erase d k j)

  keys_where-none :
      (test : V → Bool) (d : Dict K V) (j : K)
      → get d j ≡ none
      → any (λ k. k == j) (keys_where test d) ≡ false
  unfolding get keys_where
  keys_where-none test [] j h = refl
  keys_where-none test ((k, v) ∷ d) j h = ground (arith, keys_where-none test d j)

  keys_where-some :
      (test : V → Bool) (d : Dict K V) (j : K) {v : V}
      → IsUnique d
      → get d j ≡ some v
      → any (λ k. k == j) (keys_where test d) ≡ test v
  unfolding get keys_where
  keys_where-some test [] j h found = cc
  keys_where-some test ((k, w) ∷ d) j {v} (fresh, rest) found = elim (Bool-cases (k == j)) [
    | inl same ↦
        let gone : get d j ≡ none = rw (← (e.same_iff k j).0 same) fresh in
        ground (arith, keys_where-none test d j gone)
    | inr other ↦ ground (arith, keys_where-some test d j {v = v} rest)
  ]

  -- Deleting the keys whose values pass a test drops exactly those entries.
  pub get-erase_where :
      (test : V → Bool) (d : Dict K V) (j : K)
      → IsUnique d
      → get (erase_all d (keys_where test d)) j ≡ unless test (get d j)
  get-erase_where test d j h = elim (Option-cases (get d j)) [
    | inl missing ↦ rw (get-erase_all d (keys_where test d) j, missing) (ground arith)
    | inr (v, found) ↦
        rw (get-erase_all d (keys_where test d) j, keys_where-some test d j h found, found)
          (ground arith)
  ]

  pub erase_all-IsUnique : (d : Dict K V) (ks : List K) → IsUnique d → IsUnique (erase_all d ks)
  unfolding erase_all
  erase_all-IsUnique d [] h = h
  erase_all-IsUnique d (k ∷ ks) h = erase_all-IsUnique (erase d k) ks (erase-IsUnique d k h)
