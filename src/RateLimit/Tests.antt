-- ===== src/RateLimit/Tests.antt =====
-- Concrete runs of the limiters, and the theorems at concrete inputs.
use open_simple_agent.Base.Dict.{get, put}
use open_simple_agent.RateLimit.Config.{not_positive}
use open_simple_agent.RateLimit.Memory
use open_simple_agent.RateLimit.Memory.{check_all}
use open_simple_agent.Base.{
  List, Option, [], arith, false, if◌then◌else◌, ltb, min, none, refl, some, suc, true, zero, ℕ,
  ◌*◌, ◌+◌, ◌∷◌, ◌≡◌,
}
use open_simple_agent.Base.Clock.{Time}
use open_simple_agent.Base.Int.{parse_int}
use open_simple_agent.Base.Lists.{length}
use open_simple_agent.Base.Same.{nat_eq, option_eq, pair_eq, ◌==◌}
use open_simple_agent.Base.Text.{Text, text, text_eq, text_same}
use open_simple_agent.RateLimit.Callers.{handle_all, handle_budget, reached}
use open_simple_agent.RateLimit.Config.{
  RateLimitConfig, capacity, decide, enabled, from_env, positive_or_zero,
}
use open_simple_agent.RateLimit.Memory.{Limiter, Window, span}
use open_simple_agent.RateLimit.Traffic.{of_key, serve}
use open_simple_agent.Base.{◌≤◌}
use open_simple_agent.RateLimit.Middleware.{Hashing, Principal, Request, skips}
use open_simple_agent.RateLimit.Postgres.{WindowRow, WindowTable, upserted}
use open_simple_agent.RateLimit.SharedWindows.{serve_shared, shared_window_budget}
use open_simple_agent.RateLimit.Windows.{retry_after_suffices, verdicts, window_budget}
use open_simple_agent.RateLimit.Windows.{count_allowed}
use open_simple_agent.Base.Result.{raised}

abbrev two_a_minute : RateLimitConfig
two_a_minute = record { requests = 2; window_seconds = 60; burst = none }

abbrev idle : Limiter
idle = record { config = two_a_minute; windows = [] }

abbrev route : Text
route = text "GET:/agents:10.0.0.1"

-- the third request of the window is rejected, the one after the window is not
four_checks :
    (check_all idle route (0 ∷ 10000000 ∷ 59000000 ∷ 60000000 ∷ [])).1
    ≡ true ∷ true ∷ false ∷ true ∷ []
unfolding check_all Memory.check Memory.open_window decide get put text_same
four_checks = refl

third_decision :
    (Memory.check (check_all idle route (0 ∷ 10000000 ∷ [])).0 route 59500000).1
    ≡ record { allowed = false; limit = 2; remaining = 0; retry_after_seconds = 1 }
unfolding check_all Memory.check Memory.open_window decide get put text_same
third_decision = refl

zero_window_refused : from_env (some (text "10")) (some (text "0")) none ≡ raised not_positive
unfolding from_env positive_or_zero parse_int
zero_window_refused = refl

-- the window of the route has ended after a minute
abbrev used : Limiter
used = record {
  config = two_a_minute;
  windows = (route, record { started_at = 0; count = 9 }) ∷ [];
}

window_ended :
    (w : Window) → get used.windows route ≡ some w → w.started_at + span two_a_minute ≤ 60000000
unfolding get text_same
window_ended w found =
    let same : ◌≡◌ {A = Option Window} (some (record { started_at = 0; count = 9 })) (some w) =
      found in
    let one : ◌≡◌ {A = Window} (record { started_at = 0; count = 9 }) w = cc in
    rw (← one) (omega arith)

abbrev crowd : List (Text × Time)
crowd = (route, 60000000) ∷ (text "other", 60000001) ∷ (route, 70000000) ∷ (route, 119000000) ∷ []

window_budget_example :
    let times : List Time = 70000000 ∷ 119000000 ∷ [] in
    (of_key route (serve used crowd) ≡ verdicts 0 (capacity two_a_minute) (60000000 ∷ times))
    × (count_allowed (of_key route (serve used crowd))
        ≡ min (length times + 1) (capacity two_a_minute))
unfolding text_same
window_budget_example =
    window_budget used route crowd 60000000 (70000000 ∷ 119000000 ∷ []) refl window_ended
      (omega arith)

retry_after_suffices_example :
    (Memory.check
      (Memory.check (check_all idle route (0 ∷ 10000000 ∷ [])).0 route 59500000).0
      route
      60500000).1.allowed
    ≡ true
unfolding capacity check_all Memory.check Memory.open_window decide get put text_same
retry_after_suffices_example =
    retry_after_suffices (check_all idle route (0 ∷ 10000000 ∷ [])).0 route 59500000 60500000
      (omega arith) (omega arith)

-- a table of windows as a function
abbrev prune_row : Option WindowRow → ℕ → Option WindowRow
prune_row none oldest = none
prune_row (some r) oldest = if ltb r.window_id oldest then none else some r

prune_row_lem :
    (o : Option WindowRow) (oldest : ℕ)
    → prune_row o oldest
      ≡ elim o [ none ↦ none | some r ↦ if ltb r.window_id oldest then none else some r ]
prune_row_lem none oldest = refl
prune_row_lem (some r) oldest = refl

abbrev function_table : WindowTable
function_table = record {
  State = Text → Option WindowRow;
  select = λ t k. t k;
  write = λ t k r j. if k == j then some r else t j;
  delete_below = λ t oldest k. prune_row (t k) oldest;
  select-write = λ t k j r. refl;
  select-delete_below = λ t oldest k. prune_row_lem (t k) oldest;
}

abbrev no_rows : Text → Option WindowRow
no_rows k = none

shared_window_budget_example :
    let requests : List (Text × Time) =
      (route, 5) ∷ (text "other", 61000000) ∷ (route, 59000000) ∷ [] in
    let allowed =
      of_key route (serve_shared function_table two_a_minute no_rows ((route, 0) ∷ requests)) in
    (allowed ≡ verdicts 0 (capacity two_a_minute) (0 ∷ 5 ∷ 59000000 ∷ []))
    × (count_allowed allowed ≡ min 3 (capacity two_a_minute))
unfolding upserted text_same
shared_window_budget_example =
    shared_window_budget function_table two_a_minute no_rows route 0
      ((route, 5) ∷ (text "other", 61000000) ∷ (route, 59000000) ∷ []) (omega arith) refl
      (omega arith, (omega arith, (omega arith, tt))) (refl, (refl, tt))

-- a checksum in the place of SHA-256
abbrev checksum : Text → ℕ
checksum [] = 0
checksum (c ∷ s) = c + 2 * checksum s

abbrev zeros : ℕ → Text
zeros zero = []
zeros (suc n) = 48 ∷ zeros n

abbrev toy : Hashing
toy = record { digest = λ s. checksum s ∷ zeros 63; encode = λ s. s; length-digest = λ s. refl }

abbrev asked_by : Option Principal → Request
asked_by p = record {
  is_http = true;
  method = text "GET";
  path = text "/agents";
  authorization = text "";
  principal = p;
  client_host = some (text "10.0.0.1");
}

abbrev ann : Principal
ann = record { subject = text "ann"; tenant_id = some (text "t") }

handle_budget_example :
    let r = asked_by (some ann) in
    let times : List Time = 1 ∷ 2 ∷ [] in
    (reached (handle_all toy [] idle r (0 ∷ times))
      ≡ verdicts 0 (capacity two_a_minute) (0 ∷ times))
    × (count_allowed (reached (handle_all toy [] idle r (0 ∷ times)))
        ≡ min (length times + 1) (capacity two_a_minute))
unfolding get skips enabled text_same
handle_budget_example =
    handle_budget toy [] idle (asked_by (some ann)) 0 (1 ∷ 2 ∷ []) refl (λ w found. absurd (cc))
      (omega arith)
