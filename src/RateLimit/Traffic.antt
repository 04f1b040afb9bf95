-- ===== src/RateLimit/Traffic.antt =====
-- The limiter in memory under the traffic of many keys.
use open_simple_agent.Base.Dict
use open_simple_agent.RateLimit.Memory.{check, check_all}
use open_simple_agent.Base.{
  Bool, Bool-cases, List, [], false, if◌then◌else◌, inl, inr, refl, sym, ◌∙◌, ◌∷◌, ◌≡◌,
}
use open_simple_agent.Base.Clock.{Time}
use open_simple_agent.Base.Dict.{get-put, get-put_self}
use open_simple_agent.Base.Same.{nat_eq, option_eq, pair_eq, ◌==◌}
use open_simple_agent.Base.Text.{Text, text_eq}
use open_simple_agent.RateLimit.Memory.{Limiter}
use mathlib.Core.Path.{ap₂}
use open_simple_agent.Base.{ap}
use open_simple_agent.RateLimit.Config.{RateLimitDecision}

-- requests of any keys, in the order in which they take the limiter's lock
unfoldable pub serve : Limiter → List (Text × Time) → List (Text × Bool)
serve l [] = []
serve l ((key, now) ∷ requests) =
    let (l', decision) = check l key now in (key, decision.allowed) ∷ serve l' requests

-- what is in a sequence for one key
abbrev pub of_key {ℓ} : {A : Type ℓ} → Text → List (Text × A) → List A
of_key key [] = []
of_key key ((j, a) ∷ xs) = if j == key then a ∷ of_key key xs else of_key key xs

-- The window of a key is all that a check of this key reads or writes.
check_same_window :
    (l m : Limiter) (key : Text) (now : Time)
    → Dict.get l.windows key ≡ Dict.get m.windows key
    → l.config ≡ m.config
    → ((check l key now).1 ≡ (check m key now).1)
      × (Dict.get (check l key now).0.windows key ≡ Dict.get (check m key now).0.windows key)
      × ((check l key now).0.config ≡ (check m key now).0.config)
unfolding check
check_same_window l m key now windows config =
    rw (windows, config)
      (refl, get-put_self l.windows key _ ∙ sym (get-put_self m.windows key _), refl)

check_other_key :
    (l : Limiter) (key j : Text) (now : Time)
    → (j == key) ≡ false
    → (Dict.get (check l j now).0.windows key ≡ Dict.get l.windows key)
      × ((check l j now).0.config ≡ l.config)
unfolding check
check_other_key l key j now other = (rw (get-put l.windows j key _) (rw other), refl)

interleaved :
    (l m : Limiter) (key : Text) (requests : List (Text × Time))
    → Dict.get l.windows key ≡ Dict.get m.windows key
    → l.config ≡ m.config
    → of_key key (serve l requests) ≡ (check_all m key (of_key key requests)).1
unfolding serve check_all
interleaved l m key [] windows config = refl
interleaved l m key ((j, now) ∷ requests) windows config = elim (Bool-cases (j == key)) [
  | inl own ↦
      let at_key : j ≡ key = (text_eq.same_iff j key).0 own in
      let (decision, windows', config') = check_same_window l m key now windows config in
      let l' = (check l j now).0 in
      let m' = (check m key now).0 in
      let first : (check l j now).1.allowed ≡ (check m key now).1.allowed =
        ap (λ (k : Text). (check l k now).1.allowed) at_key
        ∙ ap (λ (d : RateLimitDecision). d.allowed) decision in
      let rest =
        interleaved l' m' key requests
          (ap (λ (k : Text). Dict.get (check l k now).0.windows key) at_key ∙ windows')
          (ap (λ (k : Text). (check l k now).0.config) at_key ∙ config') in
      rw own (ap₂ (λ b bs. b ∷ bs) first rest)
  | inr other ↦
      let (untouched, kept) = check_other_key l key j now other in
      rw other (interleaved (check l j now).0 m key requests (untouched ∙ windows) (kept ∙ config))
]

-- Callers do not use up each other's budget: in any interleaving of requests the verdicts on one
-- key are those that its requests alone would have got.
pub keys_independent :
    (l : Limiter) (key : Text) (requests : List (Text × Time))
    → of_key key (serve l requests) ≡ (check_all l key (of_key key requests)).1
keys_independent l key requests = interleaved l l key requests refl refl
