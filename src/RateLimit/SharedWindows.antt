-- ===== src/RateLimit/SharedWindows.antt =====
-- What the limiter in PostgreSQL promises: the same budget, for each window of the wall clock.
use open_simple_agent.RateLimit.Postgres.{check}
use open_simple_agent.RateLimit.Traffic.{of_key}
use open_simple_agent.Base.Text.{text_same_iff}
use open_simple_agent.Base.{if◌then◌else◌, ltb, Bool-cases, inl, inr, ◌≤◌}
use open_simple_agent.Base.{
  Bool, List, [], arith, eqb, false, leb, refl, some, ◌*◌, ◌-◌, ◌/◌, ◌<◌, ◌∷◌, ◌≡◌,
}
use open_simple_agent.Base.Clock.{Time, second}
use open_simple_agent.Base.Lists.{take}
use open_simple_agent.Base.Same.{nat_eq, option_eq, pair_eq, same_refl, ◌==◌}
use open_simple_agent.Base.Text.{Text, text_eq}
use open_simple_agent.RateLimit.Config.{RateLimitConfig, capacity, decide}
use open_simple_agent.RateLimit.Postgres.{
  CheckResult, WindowRow, WindowTable, decided, upserted, zero_division,
}
use open_simple_agent.Base.{Option, ap, min, none, ℕ, ◌+◌, ◌∙◌}
use open_simple_agent.Base.Lists.{All, length}
use open_simple_agent.RateLimit.Windows.{count-verdicts, count_allowed, verdicts}

abbrev pub verdict : CheckResult → Bool
verdict (decided d) = d.allowed
verdict zero_division = false

upserted_id : (old : Option WindowRow) (id : ℕ) → (upserted old id).window_id ≡ id
unfolding upserted
upserted_id none id = refl
upserted_id (some r) id = refl

upserted_same :
    (r : WindowRow)
    → upserted (some r) r.window_id ≡ record { window_id = r.window_id; count = r.count + 1 }
unfolding upserted
upserted_same r = ground arith

-- the times of the requests whose key has this text in its column
abbrev pub times_of : Text → List (Text × Time) → List Time
times_of short [] = []
times_of short ((j, now) ∷ requests) =
    if take 512 j == short then now ∷ times_of short requests else times_of short requests

module _ (table : WindowTable) where
  open table use {State, select, write, delete_below, select-write, select-delete_below}

  -- requests of any keys on any replicas, with the column's text of the key
  unfoldable pub serve_shared : RateLimitConfig → State → List (Text × Time) → List (Text × Bool)
  serve_shared c t [] = []
  serve_shared c t ((key, now) ∷ requests) =
      let (t', result) = check table c t key now in
      (take 512 key, verdict result) ∷ serve_shared c t' requests

  -- the row that was just counted survives the prune
  select-pruned :
      (t : State) (short : Text) (r : WindowRow) (id : ℕ)
      → r.window_id ≡ id
      → select (delete_below (write t short r) (id - 1)) short ≡ some r
  select-pruned t short r id current =
      rw (select-delete_below (write t short r) (id - 1) short, select-write t short short r)
        (rw (same_refl short) (ground arith))

  -- One request: the verdict is that of the row which the upsert leaves, and that row stays.
  check_counts :
      (c : RateLimitConfig) (t : State) (key : Text) (now : Time)
      → 0 < c.window_seconds
      → let row = upserted (select t (take 512 key)) (now / (c.window_seconds * second)) in
        (verdict (check table c t key now).1 ≡ leb row.count (capacity c))
        × (select (check table c t key now).0 (take 512 key) ≡ some row)
  unfolding check decide
  check_counts c t key now positive =
      let nonzero : eqb c.window_seconds 0 ≡ false = ground arith in
      let id = now / (c.window_seconds * second) in
      let old = select t (take 512 key) in
      rw nonzero (refl, select-pruned t (take 512 key) (upserted old id) id (upserted_id old id))

  -- A request of another key keeps the row, unless its clock is two windows ahead.
  check_keeps :
      (c : RateLimitConfig) (t : State) (j short : Text) (now : Time) {r : WindowRow}
      → 0 < c.window_seconds
      → (take 512 j == short) ≡ false
      → now / (c.window_seconds * second) ≤ r.window_id + 1
      → select t short ≡ some r
      → select (check table c t j now).0 short ≡ some r
  unfolding check
  check_keeps c t j short now {r} positive other near found =
      let nonzero : eqb c.window_seconds 0 ≡ false = ground arith in
      let id = now / (c.window_seconds * second) in
      let old : ltb r.window_id (id - 1) ≡ false = ground arith in
      rw nonzero (
        select-delete_below (write t (take 512 j) (upserted (select t (take 512 j)) id)) (id - 1)
          short
        ∙ rw (select-write t (take 512 j) short (upserted (select t (take 512 j)) id), other, found)
            (rw old refl))

  -- The requests of one key inside one window get the verdicts of a counter.
  inside_shared_window :
      (c : RateLimitConfig) (t : State) (short : Text) (requests : List (Text × Time))
      {r : WindowRow}
      → 0 < c.window_seconds
      → select t short ≡ some r
      → All (λ q. q.1 / (c.window_seconds * second) ≤ r.window_id + 1) requests
      → All (λ now. now / (c.window_seconds * second) ≡ r.window_id) (times_of short requests)
      → of_key short (serve_shared c t requests)
        ≡ verdicts r.count (capacity c) (times_of short requests)
  unfolding serve_shared
  inside_shared_window c t short [] positive found near inside = refl
  inside_shared_window c t short ((j, now) ∷ requests) {r} positive found (close, near) inside =
      elim (Bool-cases (take 512 j == short)) [
        | inr other ↦ rw other (
            inside_shared_window c (check table c t j now).0 short requests {r = r} positive
              (check_keeps c t j short now {r = r} positive other close found) near
              (rw other at inside))
        | inl own ↦
            let at_short : take 512 j ≡ short = (text_same_iff (take 512 j) short).0 own in
            let (first, rest) = rw own at inside in
            let (allowed, kept) = check_counts c t j now positive in
            let counted : upserted (select t short) (now / (c.window_seconds * second))
                ≡ record { window_id = r.window_id; count = r.count + 1 } =
              rw (found, first) (upserted_same r) in
            let later =
              inside_shared_window c (check table c t j now).0 short requests
                {r = record { window_id = r.window_id; count = r.count + 1 }} positive
                ((rw at_short at kept) ∙ ap some counted) near rest in
            rw (own, allowed, at_short, counted, later) refl
      ]

  -- Requests of any keys reach replicas of the limiter, the first with a key that has no row of the
  -- window in which its request falls. All requests of that key fall into this window of the wall
  -- clock, whose length is positive, and no clock is two windows ahead of it. Then the requests of
  -- that key are allowed up to the capacity, the first ones, and no other.
  pub shared_window_budget :
      (c : RateLimitConfig) (t : State) (key : Text) (start : Time) (requests : List (Text × Time))
      → 0 < c.window_seconds
      → (upserted (select t (take 512 key)) (start / (c.window_seconds * second))).count ≡ 1
      → All
          (λ q. q.1 / (c.window_seconds * second) ≤ start / (c.window_seconds * second) + 1)
          requests
      → All
          (λ now. now / (c.window_seconds * second) ≡ start / (c.window_seconds * second))
          (times_of (take 512 key) requests)
      → let allowed = of_key (take 512 key) (serve_shared c t ((key, start) ∷ requests)) in
        let times = start ∷ times_of (take 512 key) requests in
        (allowed ≡ verdicts 0 (capacity c) times)
        × (count_allowed allowed ≡ min (length times) (capacity c))
  unfolding serve_shared
  shared_window_budget c t key start requests positive fresh near inside =
      let (allowed, kept) = check_counts c t key start positive in
      let id = start / (c.window_seconds * second) in
      let row = upserted (select t (take 512 key)) id in
      let is_id = upserted_id (select t (take 512 key)) id in
      let later =
        inside_shared_window c (check table c t key start).0 (take 512 key) requests {r = row}
          positive kept (rw is_id near) (rw is_id inside) in
      let times = start ∷ times_of (take 512 key) requests in
      let all : of_key (take 512 key) (serve_shared c t ((key, start) ∷ requests))
          ≡ verdicts 0 (capacity c) times =
        rw (same_refl (take 512 key), allowed, later, fresh) refl in
      (all, rw all (omega (arith, count-verdicts 0 (capacity c) times)))
