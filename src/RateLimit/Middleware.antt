-- ===== src/RateLimit/Middleware.antt =====
-- rate_limit.py: `RateLimitMiddleware`. A request reaches the limiter under a key made of its
-- method, its path and the identity of its caller. SHA-256 and the UTF-8 encoding are parameters.
use open_simple_agent.RateLimit.Memory.{check}
use open_simple_agent.Base.{
  Bool, List, Option, [], if◌then◌else◌, none, not, some, ℕ, ◌++◌, ◌||◌, ◌∷◌, ◌≡◌,
}
use open_simple_agent.Base.Clock.{Time}
use open_simple_agent.Base.Lists.{any, length, take}
use open_simple_agent.Base.Same.{nat_eq, option_eq, pair_eq, ◌==◌}
use open_simple_agent.Base.Text.{Text, is_empty, or_else, text, text_eq}
use open_simple_agent.RateLimit.Config.{RateLimitDecision, enabled}
use open_simple_agent.RateLimit.Memory.{Limiter}
use open_simple_agent.RateLimit.Config.{RateLimitConfig}

-- the verified principal that the authentication middleware leaves in the request's state
pub record Principal : Type 0 where
  pub subject : Text
  pub tenant_id : Option Text

pub record Request : Type 0 where
  pub is_http : Bool
  pub method : Text
  pub path : Text
  pub authorization : Text
  pub principal : Option Principal
  pub client_host : Option Text

-- the headers `X-RateLimit-Limit`, `-Remaining` and `-Reset`
pub record LimitHeaders : Type 0 where
  pub limit : ℕ
  pub remaining : ℕ
  pub reset : ℕ

-- what the middleware does with a request: hand it on, hand it on and add headers to the response,
-- or answer 429 with the headers and `Retry-After`
pub data Outcome : Type 0 where
  passed : Outcome
  passed_with : LimitHeaders → Outcome
  too_many_requests : LimitHeaders → ℕ → Outcome

-- one increment of `osa_rate_limit_decisions_total`, labelled with the route and the decision
abbrev pub Metric : Type 0
Metric = Text × Bool

pub record Hashing : Type 0 where
  -- `hashlib.sha256(…).hexdigest()`
  pub digest : Text → Text
  -- `str.encode()`
  pub encode : Text → Text
  pub length-digest : (s : Text) → length (digest s) ≡ 64

-- `f"{tenant}\x00{subject}"`
unfoldable pub principal_text : Principal → Text
principal_text p = or_else p.tenant_id (text "") ++ (0 ∷ p.subject)

-- `str(client[0] if client else "anonymous")`
unfoldable pub host_text : Option Text → Text
host_text none = text "anonymous"
host_text (some host) = host

-- the part of `__call__` after the decision
unfoldable pub respond : RateLimitDecision → Outcome
respond d =
    let headers : LimitHeaders = record {
      limit = d.limit;
      remaining = d.remaining;
      reset = d.retry_after_seconds;
    } in
    if d.allowed then passed_with headers else too_many_requests headers d.retry_after_seconds

-- the requests that the middleware does not count
unfoldable pub skips : List Text → RateLimitConfig → Request → Bool
skips exempt_paths c r =
    not r.is_http
    || not (enabled c)
    || any (λ p. p == r.path) exempt_paths
    || r.method == text "OPTIONS"

module _ (hashing : Hashing) where
  open hashing use {digest, encode}

  unfoldable pub identity : Option Principal → Text → Option Text → Text
  identity (some p) authorization client_host = digest (encode (principal_text p))
  identity none authorization client_host =
      if is_empty authorization then host_text client_host else digest authorization

  unfoldable pub request_key : Request → Text
  request_key r =
      take 16 r.method
      ++ (text ":"
          ++ (take 256 r.path ++ (text ":" ++ identity r.principal r.authorization r.client_host)))

  -- `__call__` with the limiter in memory; the metric is counted if the application has metrics
  unfoldable pub handle : List Text → Limiter → Request → Time → Limiter × Outcome × List Metric
  unfolding respond
  handle exempt_paths l r now =
      if skips exempt_paths l.config r
      then (l, passed, [])
      else let (l', d) = check l (request_key r) now in
        (l', respond d, (take 256 r.path, d.allowed) ∷ [])
