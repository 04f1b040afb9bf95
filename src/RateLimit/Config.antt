-- ===== src/RateLimit/Config.antt =====
-- rate_limit.py: `RateLimitConfig`, its environment, and `RateLimitDecision`.
use open_simple_agent.Base.{
  Bool, Option, arith, eqb, false, if◌then◌else◌, leb, ltb, max, none, or_default, some, true, ℕ,
  ◌+◌, ◌-◌, ◌/◌, ◌<◌, ◌≡◌,
}
use open_simple_agent.Base.Int.{negsuc, parse_int, pos, strip, ℤ}
use open_simple_agent.Base.Text.{Text, is_empty}
use open_simple_agent.Base.Clock.{Time, second}
use open_simple_agent.Base.Result.{Result, raised, returned, returned_bind}
use open_simple_agent.Base.Result.{◌>>=◌}

pub record RateLimitConfig : Type 0 where
  pub requests : ℕ
  pub window_seconds : ℕ
  pub burst : Option ℕ

pub data SettingError : Type 0 where
  not_an_integer negative not_positive burst_not_positive : SettingError

unfoldable pub enabled : RateLimitConfig → Bool
enabled c = ltb 0 c.requests

unfoldable pub capacity : RateLimitConfig → ℕ
capacity c = or_default c.burst c.requests

-- the test on the parsed value; `is_requests` is `name == RATE_LIMIT_REQUESTS_ENV_VAR`
abbrev pub check_sign : Bool → ℤ → Result SettingError ℕ
check_sign true (negsuc n) = raised negative
check_sign false (negsuc n) = raised not_positive
check_sign true (pos n) = returned n
check_sign false (pos n) = if eqb n 0 then raised not_positive else returned n

abbrev pub check_parsed : Bool → Option ℤ → Result SettingError ℕ
check_parsed is_requests none = raised not_an_integer
check_parsed is_requests (some value) = check_sign is_requests value

unfoldable pub positive_or_zero : Bool → Option Text → ℕ → Result SettingError ℕ
positive_or_zero is_requests none default = returned default
positive_or_zero is_requests (some raw) default = check_parsed is_requests (parse_int raw)

-- `burst_value is None or not burst_value.strip()`
abbrev pub read_burst : Option Text → ℕ → Result SettingError (Option ℕ)
read_burst none requests = returned none
read_burst (some raw) requests =
    if is_empty (strip raw)
    then returned none
    else (do b ← positive_or_zero false (some raw) requests; returned (some b))

-- `if burst is not None and burst < 1: raise`
abbrev pub check_burst : Option ℕ → Result SettingError (Option ℕ)
check_burst none = returned none
check_burst (some b) = if ltb b 1 then raised burst_not_positive else returned (some b)

-- the values of `OSA_RATE_LIMIT_REQUESTS`, `…_WINDOW_SECONDS` and `…_BURST`
unfoldable pub from_env :
    Option Text → Option Text → Option Text → Result SettingError RateLimitConfig
from_env raw_requests raw_window raw_burst = do
  requests ← positive_or_zero true raw_requests 0
  window ← positive_or_zero false raw_window 60
  read ← read_burst raw_burst requests
  burst ← check_burst read
  returned (record { requests = requests; window_seconds = window; burst = burst })

pub record RateLimitDecision : Type 0 where
  pub allowed : Bool
  pub limit : ℕ
  pub remaining : ℕ
  pub retry_after_seconds : ℕ

-- `math.ceil` of a number of seconds, 0 for what is below
unfoldable pub ceil_seconds : Time → ℕ
ceil_seconds t = (t + (second - 1)) / second

-- the decision for a request that is number `count` of its window, which ends at `reset`
unfoldable pub decide : RateLimitConfig → ℕ → Time → Time → RateLimitDecision
unfolding capacity ceil_seconds
decide c count reset now = record {
  allowed = leb count (capacity c);
  limit = capacity c;
  remaining = capacity c - count;
  retry_after_seconds = max 1 (ceil_seconds (reset - now));
}

positive_bound :
    (raw : Option Text) (default : ℕ) {n : ℕ}
    → 0 < default
    → positive_or_zero false raw default ≡ returned n
    → 0 < n
unfolding positive_or_zero
positive_bound none default d h = ground arith
positive_bound (some raw) default {n} d h = go (parse_int raw) h
  where
    go : (value : Option ℤ) → check_parsed false value ≡ returned n → 0 < n
    go none h = cc
    go (some (pos m)) h = ground arith
    go (some (negsuc m)) h = cc

burst_bound :
    (read burst : Option ℕ) (requests : ℕ)
    → check_burst read ≡ returned burst
    → 0 < requests
    → 0 < or_default burst requests
burst_bound none burst requests h r = ground arith
burst_bound (some b) burst requests h r = ground arith

-- A configuration that the environment gives has a window of at least one second, and lets at least
-- one request through per window if it is enabled.
pub from_env_bounds :
    (raw_requests raw_window raw_burst : Option Text) {c : RateLimitConfig}
    → from_env raw_requests raw_window raw_burst ≡ returned c
    → enabled c ≡ true
    → (0 < c.window_seconds) × (0 < capacity c)
unfolding from_env enabled capacity
from_env_bounds raw_requests raw_window raw_burst {c} h on =
    let (requests, _, h₁) = returned_bind (positive_or_zero true raw_requests 0) _ h in
    let (window, window_read, h₂) = returned_bind (positive_or_zero false raw_window 60) _ h₁ in
    let (read, _, h₃) = returned_bind (read_burst raw_burst requests) _ h₂ in
    let (burst, burst_read, made) = returned_bind (check_burst read) _ h₃ in
    let w = positive_bound raw_window 60 {n = window} (omega arith) window_read in
    let b = burst_bound read burst requests burst_read in ground (arith, w, b, made)
