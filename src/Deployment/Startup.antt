-- ===== src/Deployment/Startup.antt =====
-- deployment.py: `_await_startup`, the loop that polls a new process until it is healthy, has
-- exited, or the time is up. What a round observes of the clock, the process and the URL is an
-- argument; the rounds are numbered.
use open_simple_agent.Base.{
  Bool, Option, false, if◌then◌else◌, ltb, none, not, some, suc, true, zero, ℕ, ◌+◌, ◌<◌, ◌≡◌, ◌≤◌,
}
use open_simple_agent.Base.Clock.{Time}
use open_simple_agent.Base.Text.{Text}
use open_simple_agent.Base.{Bool-cases, Option-cases, arith, inl, inr, is_some, refl}

pub record Round : Type 0 where
  pub clock : Time
  pub has_exited : Bool
  pub is_healthy : Bool

-- one round within the time: `some` answer, or another round
abbrev pub startup_round : Option Text → Round → Option Bool
startup_round none r = if r.has_exited then some false else some true
startup_round (some url) r =
    if r.has_exited then some false else if r.is_healthy then some true else none

-- the return after the time is up
abbrev pub after_deadline : Option Text → Round → Bool
after_deadline none r = not r.has_exited
after_deadline (some url) r = false

-- an answer, or another round
abbrev pub answer_or : Option Bool → Option Bool → Option Bool
answer_or none rest = rest
answer_or (some answer) rest = some answer

-- `fuel` rounds from round `i` on; `none` means that they did not suffice
unfoldable pub await_rounds : ℕ → (ℕ → Round) → Time → Option Text → ℕ → Option Bool
await_rounds zero rounds deadline url i = none
await_rounds (suc fuel) rounds deadline url i =
    let rest = await_rounds fuel rounds deadline url (i + 1) in
    let here = answer_or (startup_round url (rounds i)) rest in
    if ltb (rounds i).clock deadline then here else some (after_deadline url (rounds i))

-- The wait as a whole, with one round for each microsecond and one more.
unfoldable pub await_startup : (ℕ → Round) → Time → Time → Option Text → Option Bool
await_startup rounds start timeout url = await_rounds (timeout + 1) rounds (start + timeout) url 0

-- the answer is justified by a round
abbrev pub Justified : (ℕ → Round) → Option Text → Bool → Type 0
Justified rounds url answer =
    answer ≡ true
    → (k : ℕ) × ((rounds k).has_exited ≡ false)
      × (is_some url ≡ true → (rounds k).is_healthy ≡ true)

round-Justified :
    (rounds : ℕ → Round) (url : Option Text) (i : ℕ) {answer : Bool}
    → startup_round url (rounds i) ≡ some answer
    → Justified rounds url answer
round-Justified rounds none i h good = (i, ground arith, λ given. cc)
round-Justified rounds (some url) i h good = (i, ground arith, λ given. ground arith)

late-Justified :
    (rounds : ℕ → Round) (url : Option Text) (i : ℕ)
    → Justified rounds url (after_deadline url (rounds i))
late-Justified rounds none i good = (i, ground arith, λ given. cc)
late-Justified rounds (some url) i good = cc

await_rounds_total :
    (fuel : ℕ) (rounds : ℕ → Round) (start deadline : Time) (url : Option Text) (i : ℕ)
    → ((k : ℕ) → start + k ≤ (rounds k).clock)
    → start + i ≤ deadline
    → deadline < start + i + fuel
    → (answer : Bool) × (await_rounds fuel rounds deadline url i ≡ some answer)
      × Justified rounds url answer
unfolding await_rounds
await_rounds_total zero rounds start deadline url i passes within enough = absurd (omega arith)
await_rounds_total (suc fuel) rounds start deadline url i passes within enough =
    elim (Bool-cases (ltb (rounds i).clock deadline)) [
      | inr late ↦ (after_deadline url (rounds i), rw late refl, late-Justified rounds url i)
      | inl early ↦ elim (Option-cases (startup_round url (rounds i))) [
        | inr (answer, given) ↦ (answer, rw (early, given) refl, round-Justified rounds url i given)
        | inl waits ↦
            let before : start + i < deadline = ground (arith, passes i) in
            let (answer, found, why) =
              await_rounds_total fuel rounds start deadline url (i + 1) passes (omega arith)
                (omega arith) in
            (answer, rw (early, waits) found, why)
      ]
    ]

-- The wait for a new process ends: if each round takes at least a microsecond, the rounds that
-- `await_startup` counts suffice. If the answer is yes, some round has seen the process alive and,
-- where a URL is polled, healthy.
pub await_startup_total :
    (rounds : ℕ → Round) (start timeout : Time) (url : Option Text)
    → ((k : ℕ) → start + k ≤ (rounds k).clock)
    → (answer : Bool) × (await_startup rounds start timeout url ≡ some answer)
      × Justified rounds url answer
unfolding await_startup
await_startup_total rounds start timeout url passes =
    await_rounds_total (timeout + 1) rounds start (start + timeout) url 0 passes (omega arith)
      (omega arith)
