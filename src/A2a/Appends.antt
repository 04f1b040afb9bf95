-- ===== src/A2a/Appends.antt =====
-- What the event store promises of a stream: consecutive numbers, pages by cursor, and no event
-- from a worker that has lost the task.
use open_simple_agent.A2a.Events.{
  append_if_owned, append_on_connection, insert_event, check_event, page, read_after, bounded_page,
  A2aTaskEvent, Rows, in_stream, stream, next_event,
}
use open_simple_agent.A2a.Ownership.{Worker, run_if_owned, is_current_owner}
use open_simple_agent.A2a.{TaskOwnership, TaskRow, A2aError}
use open_simple_agent.A2a.Rows.{checked}
use open_simple_agent.Base.Int.{pos}
use open_simple_agent.Base.Result.{Result, returned, returned_bind, raised}
use open_simple_agent.A2a.Streams.{Numbered, filter-append}
use open_simple_agent.Base.{Bool-cases, List, Option, [], inl, inr, none, some, ℕ, ◌++◌, ◌∷◌, ◌≡◌}
use open_simple_agent.Base.Clock.{Time}
use open_simple_agent.Base.Lists.{filter}
use open_simple_agent.Base.Text.{Text}
use open_simple_agent.A2a.{validate_ownership}
use open_simple_agent.A2a.Events.{max_sequence}
use open_simple_agent.A2a.Streams.{append-Numbered, check_some, max-Numbered}
use open_simple_agent.Base.{ap, arith, false, max, refl, true, ◌&&◌, ◌+◌, ◌⊎◌}
use open_simple_agent.Base.Lists.{length}
use open_simple_agent.Base.Result.{◌>>=◌}
use open_simple_agent.Base.Same.{nat_eq, option_eq, pair_eq, ◌==◌}
use open_simple_agent.Base.Table.{Table}
use open_simple_agent.Base.Text.{text_eq, text_same_iff}
use open_simple_agent.A2a.{validate_all}
use open_simple_agent.A2a.Streams.{after-Numbered, drop-Numbered, sorted-Numbered}
use open_simple_agent.Base.{Bool, suc, sym, ◌∙◌}
use open_simple_agent.Base.Lists.{drop, take}
use open_simple_agent.Base.{if◌then◌else◌, ◌-◌}

append_none : {A : Type 0} (xs : List A) → xs ++ [] ≡ xs
append_none [] = refl
append_none (x ∷ xs) = ap (λ r. x ∷ r) (append_none xs)

mapped :
    {B C : Type 0} (found : Result A2aError Text) (f : Text → B) (g : B → C) (tenant : Text)
    → ((resolved : Text) → found ≡ returned resolved → tenant ≡ resolved)
    → {result : C}
    → ((found >>= (λ resolved. returned (f resolved))) >>= (λ done. returned (g done)))
      ≡ returned result
    → g (f tenant) ≡ result
mapped (raised e) f g tenant same h = cc
mapped (returned resolved) f g tenant same {result} h =
    let kept : g (f resolved) ≡ result = cc in rw (same resolved refl) kept

branches :
    {A : Type 0} (test : Bool) (a b : A) {ran : A × Bool} {c : A}
    → (if test then (a, true) else (b, false)) ≡ ran
    → ran.0 ≡ c
    → ((test ≡ false) × (b ≡ c)) ⊎ ((test ≡ true) × (a ≡ c))
branches {A} true a b kept answer = inr (refl, ap (λ (p : A × Bool). p.0) kept ∙ answer)
branches {A} false a b kept answer = inl (refl, ap (λ (p : A × Bool). p.0) kept ∙ answer)

module _ (events : Rows) where
  open events use {State, rows, insert, rows-insert}

  -- every stream is numbered 1, 2, 3 and so on, in the order of insertion
  abbrev pub AllNumbered : State → Type 0
  AllNumbered t = (tenant_id task_id : Text) → Numbered 1 (stream events t tenant_id task_id)

  stream-insert :
      (t : State) (e : A2aTaskEvent) (tenant_id task_id : Text)
      → stream events (insert t e) tenant_id task_id
        ≡ stream events t tenant_id task_id ++ filter (in_stream tenant_id task_id) (e ∷ [])
  stream-insert t e tenant_id task_id =
      rw (rows-insert t e) (filter-append (in_stream tenant_id task_id) (rows t) (e ∷ []))

  next_event-Numbered :
      (t : State) (o : TaskOwnership) (event_type : Text) (payload : List ℕ) (tenant : Text)
      (now : Time)
      → AllNumbered t
      → AllNumbered (insert t (next_event events t o event_type payload tenant now))
  next_event-Numbered t o event_type payload tenant now h tenant_id task_id =
      let e : A2aTaskEvent = next_event events t o event_type payload tenant now in
      let counted = max-Numbered 0 (stream events t tenant o.task_id) (h tenant o.task_id) in
      rw (stream-insert t e tenant_id task_id) (elim (Bool-cases (in_stream tenant_id task_id e)) [
        | inl inside ↦ rw inside (
            append-Numbered 1 (stream events t tenant_id task_id) e (h tenant_id task_id)
              (same_stream inside counted))
        | inr outside ↦
            rw (outside, append_none (stream events t tenant_id task_id)) (h tenant_id task_id)
      ])
    where
      same_stream :
          tenant == tenant_id && o.task_id == task_id ≡ true
          → max 0 (max_sequence (stream events t tenant o.task_id))
            ≡ 0 + length (stream events t tenant o.task_id)
          → max_sequence (stream events t tenant o.task_id) + 1
            ≡ 1 + length (stream events t tenant_id task_id)
      same_stream inside counted =
          let a : tenant ≡ tenant_id = ground (arith, text_same_iff tenant tenant_id) in
          let b : o.task_id ≡ task_id = ground (arith, text_same_iff o.task_id task_id) in
          rw (← a, ← b) (omega (arith, counted))

  insert_event_inv :
      (limit : ℕ) (t : State) (o : TaskOwnership) (event_type : Text) (payload : List ℕ)
      (tenant : Text) (now : Time) {t' : State} {r : Option ℕ}
      → insert_event events limit o event_type payload tenant now (returned (t, none))
        ≡ returned (t', r)
      → let e = next_event events t o event_type payload tenant now in
        (insert t e ≡ t') × (some e.sequence ≡ r)
  unfolding insert_event append_on_connection
  insert_event_inv limit t o event_type payload tenant now {t'} {r} h =
      let both =
        mapped (check_event limit o event_type payload (some tenant)) _ _ tenant
          (λ resolved ok. check_some limit o event_type payload tenant ok) h in
      (ap (λ (p : State × Option ℕ). p.0) both, ap (λ (p : State × Option ℕ). p.1) both)

  module _ (table : Table Text TaskRow) (w : Worker) (owners : table.State) (limit : ℕ) (t : State)
      (o : TaskOwnership) (event_type : Text) (payload : List ℕ) (tenant_id : Option Text)
      (now : Time) where
    abbrev Outcome : Type 0
    Outcome = Result A2aError (State × Option ℕ)

    unchanged :
        {t' : State} {r : Option ℕ}
        → ◌≡◌ {A = Outcome} (returned (t, none)) (returned (t', r))
        → (t' ≡ t) × (r ≡ none)
    unchanged {t'} {r} h =
        let same : ◌≡◌ {A = State × Option ℕ} (t, none) (t', r) = cc in
        (
          sym (ap (λ (p : State × Option ℕ). p.0) same),
          sym (ap (λ (p : State × Option ℕ). p.1) same),
        )

    append_inv :
        {t' : State} {r : Option ℕ}
        → append_if_owned events table w owners limit t o event_type payload tenant_id now
          ≡ returned (t', r)
        → ((is_current_owner w o now (table.select owners o.task_id) ≡ false)
            × (t' ≡ t)
            × (r ≡ none))
          ⊎ ((is_current_owner w o now (table.select owners o.task_id) ≡ true)
              × ((tenant : Text) × (insert t (next_event events t o event_type payload tenant now)
                    ≡ t')
                  × (some (next_event events t o event_type payload tenant now).sequence ≡ r)))
    unfolding append_if_owned run_if_owned
    append_inv {t'} {r} h =
        let (tenant, ok, rest) =
          returned_bind (check_event limit o event_type payload tenant_id) _ h in
        let (ran, done, answer) =
          returned_bind
            (run_if_owned table w owners o now
              (insert_event events limit o event_type payload tenant now) (returned (t, none)))
            _ rest in
        let kept = checked (validate_ownership o) _ done in
        elim (branches (is_current_owner w o now (table.select owners o.task_id))
          (insert_event events limit o event_type payload tenant now (returned (t, none)))
          (returned (t, none)) kept answer) [
            | inl (lost, rest_of) ↦
                let (same, nothing) = unchanged rest_of in inl (lost, same, nothing)
            | inr (owned, rest_of) ↦
                let (written, number) =
                  insert_event_inv limit t o event_type payload tenant now rest_of in
                inr (owned, (tenant, written, number))
          ]

    counted :
        (tenant : Text)
        → AllNumbered t
        → max_sequence (stream events t tenant o.task_id) + 1
          ≡ length (stream events t tenant o.task_id) + 1
    counted tenant numbered =
        omega (arith, max-Numbered 0 (stream events t tenant o.task_id) (numbered tenant o.task_id))

    -- If all streams are numbered 1, 2, 3 and so on, they still are after an append that returns.
    -- The append is made exactly if the worker is the current owner of the task; then one event
    -- of the task is added, whose number, the result, is one more than the length of its stream, and
    -- which carries the fence of the ownership. Otherwise the result is `none` and the events are as before.
    pub append_if_owned-AllNumbered :
        {t' : State} {r : Option ℕ}
        → append_if_owned events table w owners limit t o event_type payload tenant_id now
          ≡ returned (t', r)
        → AllNumbered t
        → AllNumbered t'
          × (((is_current_owner w o now (table.select owners o.task_id) ≡ false)
                × (t' ≡ t)
                × (r ≡ none))
              ⊎ ((is_current_owner w o now (table.select owners o.task_id) ≡ true)
                  × ((tenant : Text) × (e : A2aTaskEvent) × (rows t' ≡ rows t ++ (e ∷ []))
                      × (r ≡ some e.sequence)
                      × (e.sequence ≡ length (stream events t tenant o.task_id) + 1)
                      × (e.tenant_id ≡ tenant)
                      × (e.task_id ≡ o.task_id)
                      × (e.fencing_epoch ≡ o.fence))))
    append_if_owned-AllNumbered {t'} {r} h numbered = elim (append_inv h) [
      | inl (lost, same, nothing) ↦ (rw same numbered, inl (lost, same, nothing))
      | inr (owned, (tenant, put_in, number)) ↦ (
        rw (← put_in) (next_event-Numbered t o event_type payload tenant now numbered),
        inr (
          owned,
          (
            tenant,
            next_event events t o event_type payload tenant now,
            rw (← put_in) (rows-insert t (next_event events t o event_type payload tenant now)),
            sym number,
            counted tenant numbered,
            refl,
            refl,
            refl,
          ),
        ),
      )
    ]

  -- A page of a numbered stream, from a cursor that is not negative and with a positive limit, is
  -- the part of the stream after as many events as the cursor says, cut to the limit.
  pub read_after_page :
      (t : State) (tenant_id task_id : Text) (after_sequence limit : ℕ) {es : List A2aTaskEvent}
      → read_after events t tenant_id task_id (pos after_sequence) (pos (suc limit)) ≡ returned es
      → AllNumbered t
      → es ≡ take (suc limit) (drop after_sequence (stream events t tenant_id task_id))
  unfolding read_after bounded_page page
  read_after_page t tenant_id task_id after_sequence limit {es} h numbered =
      let whole = stream events t tenant_id task_id in
      let cut = after-Numbered 0 after_sequence whole (numbered tenant_id task_id) in
      let uncut : after_sequence - 0 ≡ after_sequence = omega arith in
      let (k, kept) = drop-Numbered 1 after_sequence whole (numbered tenant_id task_id) in
      rw
        (
          ← checked (validate_all (tenant_id ∷ task_id ∷ [])) _ h,
          cut,
          uncut,
          sorted-Numbered k (drop after_sequence whole) kept,
        )
        refl
