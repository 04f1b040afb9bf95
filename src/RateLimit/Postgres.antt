-- ===== src/RateLimit/Postgres.antt =====
-- rate_limit.py: the limiter in PostgreSQL. `check` is one transaction: the upsert counts in the
-- window of the wall clock, and the prune deletes the rows of windows long past. The table is a
-- parameter; `now` is `time.time()`.
-- The columns of the table but its key.
use open_simple_agent.Base.{Option, eqb, if◌then◌else◌, ltb, none, some, ℕ, ◌*◌, ◌+◌, ◌-◌, ◌/◌, ◌≡◌}
use open_simple_agent.Base.Lists.{take}
use open_simple_agent.Base.Same.{nat_eq, option_eq, pair_eq, ◌==◌}
use open_simple_agent.Base.Text.{Text, text_eq}
use open_simple_agent.RateLimit.Config.{RateLimitConfig, RateLimitDecision, decide}
use open_simple_agent.Base.Clock.{Time, second}

pub record WindowRow : Type 0 where
  pub window_id : ℕ
  pub count : ℕ

pub data CheckResult : Type 0 where
  decided : RateLimitDecision → CheckResult
  zero_division : CheckResult

-- What the limiter relies on: a table of windows whose rows can also be deleted by their window.
pub record WindowTable : Type 1 where
  pub State : Type 0
  pub select : State → Text → Option WindowRow
  pub write : State → Text → WindowRow → State
  -- `DELETE FROM … WHERE window_id < :oldest_window`
  pub delete_below : State → ℕ → State
  pub select-write :
      (t : State) (k j : Text) (r : WindowRow)
      → select (write t k r) j ≡ (if k == j then some r else select t j)
  pub select-delete_below :
      (t : State) (oldest : ℕ) (k : Text)
      → select (delete_below t oldest) k ≡ elim (select t k) [
        | none ↦ none
        | some r ↦ if ltb r.window_id oldest then none else some r
      ]

-- `INSERT … ON CONFLICT (key) DO UPDATE`: the row that the statement leaves and returns
unfoldable pub upserted : Option WindowRow → ℕ → WindowRow
upserted none window_id = record { window_id = window_id; count = 1 }
upserted (some row) window_id = record {
  window_id = window_id;
  count = if eqb row.window_id window_id then row.count + 1 else 1;
}

module _ (table : WindowTable) where
  open table use {State, select, write, delete_below}

  unfoldable pub check : RateLimitConfig → State → Text → Time → State × CheckResult
  unfolding upserted
  check c t key now =
      let short = take 512 key in
      let window_id = now / (c.window_seconds * second) in
      let row = upserted (select t short) window_id in
      if eqb c.window_seconds 0 then (t, zero_division) else (
        delete_below (write t short row) (window_id - 1),
        decided (decide c row.count ((window_id + 1) * (c.window_seconds * second)) now),
      )
