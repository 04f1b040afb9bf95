-- ===== src/A2a/Streams.antt =====
-- The events of a task as a stream: consecutive numbers, pages by cursor, and no event from a
-- worker that has lost the task.
use open_simple_agent.A2a.Events.{check_event, resolve_tenant_id, A2aTaskEvent}
use open_simple_agent.A2a.{TaskOwnership, A2aError}
use open_simple_agent.A2a.Rows.{checked}
use open_simple_agent.Base.Result.{Result, returned, raised}
use open_simple_agent.A2a.Events.{max_sequence, order_by_sequence}
use open_simple_agent.Base.{
  Bool, List, [], arith, ltb, max, refl, some, ℕ, ◌++◌, ◌+◌, ◌-◌, ◌∷◌, ◌≡◌,
}
use open_simple_agent.Base.Lists.{drop, filter, length}
use open_simple_agent.Base.Text.{Text}
use open_simple_agent.A2a.{validate_text}
use open_simple_agent.A2a.Events.{validate_event_type, validate_payload}
use open_simple_agent.Base.{Bool-cases, ap, inl, inr, suc, sym, zero, ◌∙◌}
use open_simple_agent.Base.Result.{◌>>=◌}

-- consecutive numbers from `n` on
abbrev pub Numbered : ℕ → List A2aTaskEvent → Type 0
Numbered n [] = Unit
Numbered n (e ∷ es) = (e.sequence ≡ n) × Numbered (n + 1) es

pub max-Numbered :
    (n : ℕ) (es : List A2aTaskEvent) → Numbered (n + 1) es → max n (max_sequence es) ≡ n + length es
max-Numbered n [] h = omega arith
max-Numbered n (e ∷ es) (first, rest) = omega (arith, max-Numbered (n + 1) es rest)

pub append-Numbered :
    (n : ℕ) (es : List A2aTaskEvent) (e : A2aTaskEvent)
    → Numbered n es
    → e.sequence ≡ n + length es
    → Numbered n (es ++ (e ∷ []))
append-Numbered n [] e h next = (omega arith, tt)
append-Numbered n (f ∷ es) e (first, rest) next =
    (first, append-Numbered (n + 1) es e rest (omega arith))

pub sorted-Numbered : (n : ℕ) (es : List A2aTaskEvent) → Numbered n es → order_by_sequence es ≡ es
sorted-Numbered n [] h = refl
sorted-Numbered n (e ∷ []) h = refl
sorted-Numbered n (e ∷ f ∷ es) (first, rest) =
    rw (sorted-Numbered (n + 1) (f ∷ es) rest) (ground (arith, first, rest.0))

-- some numbering of what is left
pub drop-Numbered :
    (n m : ℕ) (es : List A2aTaskEvent) → Numbered n es → (k : ℕ) × Numbered k (drop m es)
drop-Numbered n zero es h = (n, h)
drop-Numbered n (suc m) [] h = (n, tt)
drop-Numbered n (suc m) (e ∷ es) (first, rest) = drop-Numbered (n + 1) m es rest

drop_none : {A : Type 0} (m : ℕ) → drop {A = A} m [] ≡ []
drop_none zero = refl
drop_none (suc m) = refl

pub after-Numbered :
    (n a : ℕ) (es : List A2aTaskEvent)
    → Numbered (n + 1) es
    → filter (λ (e : A2aTaskEvent). ltb a e.sequence) es ≡ drop (a - n) es
after-Numbered n a [] h = sym (drop_none (a - n))
after-Numbered n a (e ∷ es) (first, rest) =
    let later = after-Numbered (n + 1) a es rest in
    elim (Bool-cases (ltb a e.sequence)) [
      | inl above ↦
          let here : a - n ≡ 0 = ground (arith, first) in
          let there : a - (n + 1) ≡ 0 = omega (arith, here) in
          rw (above, here)
            (ap (λ (r : List A2aTaskEvent). e ∷ r) (later ∙ ap (λ (k : ℕ). drop k es) there))
      | inr below ↦
          let here : a - n ≡ suc (a - (n + 1)) = ground (arith, first) in rw (below, here) later
    ]

pub filter-append :
    {A : Type 0} (test : A → Bool) (xs ys : List A)
    → filter test (xs ++ ys) ≡ filter test xs ++ filter test ys
filter-append test [] ys = refl
filter-append test (x ∷ xs) ys = ground (arith, filter-append test xs ys)

bound :
    {B : Type 0} (check : Result A2aError Unit) (k : Result A2aError B) {b : B}
    → (check >>= (λ _. k)) ≡ returned b
    → k ≡ returned b
bound (raised e) k h = cc
bound (returned done) k h = h

resolve_some :
    (tenant : Text) (scope_key : Text) {resolved : Text}
    → resolve_tenant_id (some tenant) scope_key ≡ returned resolved
    → tenant ≡ resolved
unfolding resolve_tenant_id
resolve_some tenant scope_key h = checked _ _ h

pub check_some :
    (limit : ℕ) (o : TaskOwnership) (event_type : Text) (payload : List ℕ) (tenant : Text)
    {resolved : Text}
    → check_event limit o event_type payload (some tenant) ≡ returned resolved
    → tenant ≡ resolved
unfolding check_event
check_some limit o event_type payload tenant h = resolve_some tenant o.scope_key (
    bound (validate_text o.task_id) _
      (bound (validate_payload limit payload) _ (bound (validate_event_type event_type) _ h)))
