-- ===== src/RateLimit/Memory.antt =====
-- rate_limit.py: the limiter in the memory of one process. `check` runs under the limiter's lock.
use open_simple_agent.Base.{
  Bool, List, Option, [], if◌then◌else◌, leb, none, some, ℕ, ◌*◌, ◌+◌, ◌∷◌,
}
use open_simple_agent.Base.Dict
use open_simple_agent.Base.Dict.{Dict}
use open_simple_agent.Base.Same.{nat_eq, option_eq, pair_eq}
use open_simple_agent.Base.Text.{Text, text_eq}
use open_simple_agent.RateLimit.Config.{RateLimitConfig, RateLimitDecision, decide}
use open_simple_agent.Base.Clock.{Time, second}

pub record Window : Type 0 where
  pub started_at : Time
  pub count : ℕ

pub record Limiter : Type 0 where
  pub config : RateLimitConfig
  pub windows : Dict Text Window

abbrev pub span : RateLimitConfig → Time
span c = c.window_seconds * second

-- `window is None or current - window.started_at >= self.config.window_seconds`
unfoldable pub open_window : RateLimitConfig → Option Window → Time → Window
open_window c none current = record { started_at = current; count = 0 }
open_window c (some w) current =
    if leb (w.started_at + span c) current then record { started_at = current; count = 0 } else w

unfoldable pub check : Limiter → Text → Time → Limiter × RateLimitDecision
check l key now =
    let opened = open_window l.config (Dict.get l.windows key) now in
    let window : Window = record opened { count = opened.count + 1 } in
    (
      record l { windows = Dict.put l.windows key window },
      decide l.config window.count (window.started_at + span l.config) now,
    )

-- the requests of one key, one after the other
unfoldable pub check_all : Limiter → Text → List Time → Limiter × List Bool
check_all l key [] = (l, [])
check_all l key (now ∷ times) =
    let (l', decision) = check l key now in
    let (l'', rest) = check_all l' key times in (l'', decision.allowed ∷ rest)
