-- ===== src/RateLimit/Callers.antt =====
-- What the middleware promises its callers.
use open_simple_agent.RateLimit.Memory.{check, check_all}
use open_simple_agent.RateLimit.Middleware.{handle}
use open_simple_agent.Base.{Option, [], arith, max, none, refl, some, ◌++◌, ◌∷◌, ◌≡◌, ◌≢◌, ◌≤◌}
use open_simple_agent.Base.Lists.{All, length, length-append, length-take, take, take_all}
use open_simple_agent.Base.Text.{Text, text}
use open_simple_agent.RateLimit.Middleware.{
  Hashing, Principal, Request, host_text, identity, principal_text, request_key,
}
use open_simple_agent.Base.{Bool-cases, List, inl, inr, ◌⊎◌}
use open_simple_agent.Base.Clock.{Time}
use open_simple_agent.Base.Same.{nat_eq, option_eq, pair_eq, ◌==◌}
use open_simple_agent.Base.Text.{or_else, text_eq}
use open_simple_agent.RateLimit.Memory.{Limiter}
use open_simple_agent.RateLimit.Middleware.{Outcome}
use mathlib.Core.Path.{ap₂}
use open_simple_agent.Base.{Bool, false, min, true, ◌+◌, ◌<◌}
use open_simple_agent.RateLimit.Config.{RateLimitDecision, capacity}
use open_simple_agent.RateLimit.Memory.{span}
use open_simple_agent.RateLimit.Middleware.{passed, passed_with, respond, skips, too_many_requests}
use open_simple_agent.RateLimit.Windows.{count_allowed, verdicts, HasNoOpenWindow, window_counts}

pub length-identity :
    (hashing : Hashing) (p : Option Principal) (authorization : Text) (client_host : Option Text)
    → length (identity hashing p authorization client_host)
      ≤ max 64 (length (host_text client_host))
unfolding identity
length-identity hashing (some p) a h =
    omega (arith, hashing.length-digest (hashing.encode (principal_text p)))
length-identity hashing none [] h = omega arith
length-identity hashing none (c ∷ a) h = omega (arith, hashing.length-digest (c ∷ a))

length-key :
    (hashing : Hashing) (r : Request)
    → length (host_text r.client_host) ≤ 238
    → length (request_key hashing r) ≤ 512
unfolding request_key
length-key hashing r short =
    let id = identity hashing r.principal r.authorization r.client_host in
    omega (
      arith,
      length-append {0} (take 16 r.method) (text ":" ++ (take 256 r.path ++ (text ":" ++ id))),
      length-append {0} (take 256 r.path) (text ":" ++ id),
      length-take {0} 16 r.method,
      length-take {0} 256 r.path,
      length-identity hashing r.principal r.authorization r.client_host,
    )

-- The key column of the shared store, which keeps 512 characters, loses nothing of a key whose
-- caller's host has at most 238 characters.
pub request_key_fits :
    (hashing : Hashing) (r : Request)
    → length (host_text r.client_host) ≤ 238
    → take 512 (request_key hashing r) ≡ request_key hashing r
request_key_fits hashing r short = take_all 512 (request_key hashing r) (length-key hashing r short)

append_cancel : (p a b : Text) → p ++ a ≡ p ++ b → a ≡ b
append_cancel [] a b h = h
append_cancel (c ∷ p) a b h = append_cancel p a b (cc h)

-- a text without the character 0
abbrev pub HasNoNul : Text → Type 0
HasNoNul = All (λ c. c ≢ 0)

split_at_nul :
    (a b s t : Text) → HasNoNul a → HasNoNul b → a ++ (0 ∷ s) ≡ b ++ (0 ∷ t) → (a ≡ b) × (s ≡ t)
split_at_nul [] [] s t ha hb h = (refl, cc h)
split_at_nul (c ∷ a) [] s t ha hb h = absurd (ha.0 (cc h))
split_at_nul [] (d ∷ b) s t ha hb h = absurd (hb.0 (cc h))
split_at_nul (c ∷ a) (d ∷ b) s t ha hb h =
    let (e, f) = split_at_nul a b s t ha.1 hb.1 (cc h) in (cc (e, h), f)

-- Two authenticated requests for one method and path share a key only if they are of one tenant and
-- subject, or if the digest collides on two different texts. A tenant holds no character 0.
pub principals_separate :
    (hashing : Hashing) (r r' : Request) (p p' : Principal)
    → r.principal ≡ some p
    → r'.principal ≡ some p'
    → r.method ≡ r'.method
    → r.path ≡ r'.path
    → HasNoNul (or_else p.tenant_id (text ""))
    → HasNoNul (or_else p'.tenant_id (text ""))
    → request_key hashing r ≡ request_key hashing r'
    → (or_else p.tenant_id (text "") ≡ or_else p'.tenant_id (text "")) × (p.subject ≡ p'.subject)
      ⊎ (principal_text p ≢ principal_text p')
        × (hashing.digest (hashing.encode (principal_text p))
            ≡ hashing.digest (hashing.encode (principal_text p')))
unfolding request_key identity
principals_separate hashing r r' p p' known known' method path nul nul' same_key =
    let heads : take 16 r.method
          ++ (text ":"
              ++ (take 256 r.path
                  ++ (text ":" ++ hashing.digest (hashing.encode (principal_text p)))))
        ≡ take 16 r.method
          ++ (text ":"
              ++ (take 256 r.path
                  ++ (text ":" ++ hashing.digest (hashing.encode (principal_text p'))))) =
      (rw (known, known', ← method, ← path) at same_key) in
    let collision = append_cancel (text ":") _ _ (
      append_cancel (take 256 r.path) _ _
        (append_cancel (text ":") _ _ (append_cancel (take 16 r.method) _ _ heads))) in
    elim (Bool-cases (principal_text p == principal_text p')) [
      | inl alike ↦ inl (
          unfold principal_text in
          split_at_nul _ _ p.subject p'.subject nul nul'
            ((text_eq.same_iff (principal_text p) (principal_text p')).0 alike))
      | inr different ↦ inr (
        (λ e. cc (different, (text_eq.same_iff (principal_text p) (principal_text p')).1 e)),
        collision,
      )
    ]

-- the same request again and again
unfoldable pub handle_all : Hashing → List Text → Limiter → Request → List Time → List Outcome
handle_all hashing exempt l r [] = []
handle_all hashing exempt l r (now ∷ times) =
    let (l', outcome, _) = handle hashing exempt l r now in
    outcome ∷ handle_all hashing exempt l' r times

-- did the request reach the application?
abbrev pub reaches : Outcome → Bool
reaches passed = true
reaches (passed_with _) = true
reaches (too_many_requests _ _) = false

abbrev pub reached : List Outcome → List Bool
reached [] = []
reached (o ∷ os) = reaches o ∷ reached os

reaches-respond : (d : RateLimitDecision) → reaches (respond d) ≡ d.allowed
unfolding respond
reaches-respond d = ground arith

config-check : (l : Limiter) (key : Text) (now : Time) → (check l key now).0.config ≡ l.config
unfolding check
config-check l key now = refl

reached_all :
    (hashing : Hashing) (exempt : List Text) (l : Limiter) (r : Request) (times : List Time)
    → skips exempt l.config r ≡ false
    → reached (handle_all hashing exempt l r times) ≡ (check_all l (request_key hashing r) times).1
unfolding handle_all handle check_all
reached_all hashing exempt l r [] counted = refl
reached_all hashing exempt l r (now ∷ times) counted =
    let key = request_key hashing r in
    let later =
      reached_all hashing exempt (check l key now).0 r times
        (rw (config-check l key now) counted) in
    rw counted (ap₂ (λ b bs. b ∷ bs) (reaches-respond (check l key now).1) later)

-- A caller repeats a request on a limited route, with no other request of its key in between. The
-- first one finds no window of the key that is still open, and the others come before the window
-- that it opens ends. Then the application sees the first ones up to the capacity; all others are
-- answered 429.
pub handle_budget :
    (hashing : Hashing) (exempt : List Text) (l : Limiter) (r : Request) (start : Time)
    (times : List Time)
    → skips exempt l.config r ≡ false
    → HasNoOpenWindow l (request_key hashing r) start
    → All (λ t. t < start + span l.config) times
    → (reached (handle_all hashing exempt l r (start ∷ times))
        ≡ verdicts 0 (capacity l.config) (start ∷ times))
      × (count_allowed (reached (handle_all hashing exempt l r (start ∷ times)))
          ≡ min (length times + 1) (capacity l.config))
handle_budget hashing exempt l r start times counted ended inside =
    let (a, b) = window_counts l (request_key hashing r) start times ended inside in
    rw (reached_all hashing exempt l r (start ∷ times) counted) (a, b)
