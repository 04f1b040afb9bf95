-- ===== src/RateLimit/Windows.antt =====
-- What the limiter in memory promises: a budget for each window of each key.
use open_simple_agent.Base.Dict
use open_simple_agent.RateLimit.Traffic.{keys_independent, of_key, serve}
use open_simple_agent.Base.{Option-cases, inl, inr}
use open_simple_agent.RateLimit.Memory.{check, check_all}
use open_simple_agent.Base.{
  Bool, List, [], arith, false, leb, min, refl, some, true, ℕ, ◌+◌, ◌-◌, ◌<◌, ◌∷◌, ◌≡◌,
}
use open_simple_agent.Base.Clock.{Time}
use open_simple_agent.Base.Dict.{Dict}
use open_simple_agent.Base.Lists.{All, length}
use open_simple_agent.Base.Same.{nat_eq, option_eq, pair_eq}
use open_simple_agent.Base.Text.{Text, text_eq}
use open_simple_agent.RateLimit.Config.{capacity, decide}
use open_simple_agent.RateLimit.Memory.{Limiter, Window, span}
use open_simple_agent.Base.{◌∙◌, ◌≤◌}
use open_simple_agent.Base.Clock.{seconds}
use open_simple_agent.Base.Dict.{get-put_self}
use open_simple_agent.RateLimit.Config.{RateLimitConfig}
use open_simple_agent.RateLimit.Memory.{open_window}
use open_simple_agent.Base.{le→leb, max, ◌*◌}
use open_simple_agent.Base.Clock.{second}
use open_simple_agent.RateLimit.Config.{ceil_seconds}

-- The verdicts on `n` more requests of a window that has seen `count`.
abbrev pub verdicts : ℕ → ℕ → List Time → List Bool
verdicts count limit [] = []
verdicts count limit (_ ∷ times) = leb (count + 1) limit ∷ verdicts (count + 1) limit times

abbrev pub count_allowed : List Bool → ℕ
count_allowed [] = 0
count_allowed (true ∷ bs) = count_allowed bs + 1
count_allowed (false ∷ bs) = count_allowed bs

pub count-verdicts :
    (count limit : ℕ) (times : List Time)
    → count_allowed (verdicts count limit times) ≡ min (length times) (limit - count)
count-verdicts count limit [] = omega arith
count-verdicts count limit (t ∷ times) = ground (arith, count-verdicts (count + 1) limit times)

-- One request inside a window counts in that window.
check_inside :
    (l : Limiter) (key : Text) (now : Time) {w : Window}
    → Dict.get l.windows key ≡ some w
    → now < w.started_at + span l.config
    → ((check l key now).1.allowed ≡ leb (w.count + 1) (capacity l.config))
      × (Dict.get (check l key now).0.windows key
          ≡ some (record { started_at = w.started_at; count = w.count + 1 }))
      × ((check l key now).0.config ≡ l.config)
unfolding check open_window decide
check_inside l key now {w} found inside =
    let still_open : leb (w.started_at + span l.config) now ≡ false = ground arith in
    rw (found, still_open)
      (refl, get-put_self l.windows key (record w { count = w.count + 1 }), refl)

-- A request outside every window opens one.
check_outside :
    (l : Limiter) (key : Text) (now : Time)
    → open_window l.config (Dict.get l.windows key) now ≡ record { started_at = now; count = 0 }
    → ((check l key now).1.allowed ≡ leb 1 (capacity l.config))
      × (Dict.get (check l key now).0.windows key ≡ some (record { started_at = now; count = 1 }))
      × ((check l key now).0.config ≡ l.config)
unfolding check decide
check_outside l key now opened =
    rw opened (refl, get-put_self l.windows key (record { started_at = now; count = 1 }), refl)

-- The requests of one key inside one window get the verdicts of a counter.
inside_window :
    (l : Limiter) (c : RateLimitConfig) (key : Text) (times : List Time) {w : Window}
    → l.config ≡ c
    → Dict.get l.windows key ≡ some w
    → All (λ t. t < w.started_at + span c) times
    → (check_all l key times).1 ≡ verdicts w.count (capacity c) times
unfolding check_all
inside_window l c key [] same found inside = refl
inside_window l c key (t ∷ times) {w} same found (first, rest) =
    let (allowed, found', kept) = check_inside l key t found (rw same first) in
    let later =
      inside_window (check l key t).0 c key times
        {w = record { started_at = w.started_at; count = w.count + 1 }} (kept ∙ same) found' rest in
    rw (allowed, later, same)

reopened :
    (c : RateLimitConfig) (w : Window) (now : Time)
    → leb (w.started_at + span c) now ≡ true
    → open_window c (some w) now ≡ record { started_at = now; count = 0 }
unfolding open_window
reopened c w now elapsed = rw elapsed

-- the key has no window, or one that has ended by `now`
abbrev pub HasNoOpenWindow : Limiter → Text → Time → Type 0
HasNoOpenWindow l key now =
    (w : Window) → Dict.get l.windows key ≡ some w → w.started_at + span l.config ≤ now

opened_anew :
    (l : Limiter) (key : Text) (now : Time)
    → HasNoOpenWindow l key now
    → open_window l.config (Dict.get l.windows key) now ≡ record { started_at = now; count = 0 }
unfolding open_window
opened_anew l key now ended = elim (Option-cases (Dict.get l.windows key)) [
  | inl missing ↦ rw missing refl
  | inr (w, found) ↦
      rw found (reopened l.config w now (le→leb (w.started_at + span l.config) now (ended w found)))
]

-- the same for the requests of one key alone
pub window_counts :
    (l : Limiter) (key : Text) (start : Time) (times : List Time)
    → HasNoOpenWindow l key start
    → All (λ t. t < start + span l.config) times
    → ((check_all l key (start ∷ times)).1 ≡ verdicts 0 (capacity l.config) (start ∷ times))
      × (count_allowed (check_all l key (start ∷ times)).1
          ≡ min (length times + 1) (capacity l.config))
window_counts l key start times ended inside =
    let (allowed, found, kept) = check_outside l key start (opened_anew l key start ended) in
    let later = inside_window (check l key start).0 l.config key times kept found inside in
    let all : (check_all l key (start ∷ times)).1 ≡ verdicts 0 (capacity l.config) (start ∷ times) =
      unfold check_all in rw (allowed, later) in
    (all, rw all (omega (arith, count-verdicts 0 (capacity l.config) (start ∷ times))))

-- Among the requests of any keys, those of one key begin when it has no open window, and all others
-- of them come before the window that the first one opens ends: then the limiter allows the first
-- ones of this key, up to the capacity, and no other.
pub window_budget :
    (l : Limiter) (key : Text) (requests : List (Text × Time)) (start : Time) (times : List Time)
    → of_key key requests ≡ start ∷ times
    → HasNoOpenWindow l key start
    → All (λ t. t < start + span l.config) times
    → (of_key key (serve l requests) ≡ verdicts 0 (capacity l.config) (start ∷ times))
      × (count_allowed (of_key key (serve l requests)) ≡ min (length times + 1) (capacity l.config))
window_budget l key requests start times own ended inside =
    let (all, count) = window_counts l key start times ended inside in
    rw (keys_independent l key requests, own) (all, count)

ceil-covers : (t : Time) → t ≤ max 1 (ceil_seconds t) * second
unfolding ceil_seconds
ceil-covers t = omega arith

-- A rejected caller that waits for the advertised number of seconds is let through, if the capacity
-- is positive: the answer does not ask for too little.
pub retry_after_suffices :
    (l : Limiter) (key : Text) (now later : Time)
    → 0 < capacity l.config
    → now + seconds (check l key now).1.retry_after_seconds ≤ later
    → (check (check l key now).0 key later).1.allowed ≡ true
unfolding check decide
retry_after_suffices l key now later room waited =
    let opened = open_window l.config (Dict.get l.windows key) now in
    let reset = opened.started_at + span l.config in
    let elapsed : leb (opened.started_at + span l.config) later ≡ true =
      le→leb reset later (omega (arith, waited, ceil-covers (reset - now))) in
    rw (get-put_self l.windows key (record opened { count = opened.count + 1 })) (
      rw (reopened l.config (record opened { count = opened.count + 1 }) later elapsed)
        (le→leb 1 (capacity l.config) room))
