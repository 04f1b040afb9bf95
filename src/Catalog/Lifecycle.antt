-- ===== src/Catalog/Lifecycle.antt =====
-- The life cycle of an agent record: which moves `transition` makes, and that none leaves the
-- archive.
use open_simple_agent.Base.Dict.{get, put}
use open_simple_agent.Catalog.Records.{
  transition, update, transition_found, update_found, add_version, add_version_found, create,
  delete, disable, set_field, Catalog,
}
use open_simple_agent.Catalog.{AgentRecordStatus, draft, active, disabled, archived, may_become}
use open_simple_agent.Base.{Bool, Bool-cases, Option, false, inl, inr, none, refl, some, true, ◌≡◌}
use open_simple_agent.Base.Clock.{Time}
use open_simple_agent.Base.Dict.{get-erase, get-put, values}
use open_simple_agent.Base.Lists.{any}
use open_simple_agent.Base.Same.{nat_eq, option_eq, pair_eq, ◌==◌}
use open_simple_agent.Base.Text.{Text, text_eq, text_same_iff}
use open_simple_agent.Catalog.{AgentRecord, AgentVersion, same_status}
use open_simple_agent.Catalog.Records.{is_named}
use open_simple_agent.Base.{◌||◌}
use open_simple_agent.Base.Result.{returned}
use open_simple_agent.Base.{ap, arith, sym, ℕ, ◌∙◌}
use open_simple_agent.Base.Dict.{get-put_self}
use open_simple_agent.Base.{if◌then◌else◌}
use open_simple_agent.Catalog.{status_code}
use open_simple_agent.Base.Result.{returned_inj}

archived_stays : (r s : AgentRecordStatus) → same_status r archived ≡ true → may_become r s ≡ false
unfolding may_become
archived_stays archived s h = refl
archived_stays draft s h = cc
archived_stays active s h = cc
archived_stays disabled s h = cc

abbrev status_of : ℕ → AgentRecordStatus
status_of n =
    if n == 0 then draft else if n == 1 then active else if n == 2 then disabled else archived

status_of_code : (s : AgentRecordStatus) → status_of (status_code s) ≡ s
status_of_code draft = refl
status_of_code active = refl
status_of_code disabled = refl
status_of_code archived = refl

pub same_status_iff : (a b : AgentRecordStatus) → same_status a b ≡ true → a ≡ b
same_status_iff a b h =
    sym (status_of_code a)
    ∙ ap status_of ((nat_eq.same_iff (status_code a) (status_code b)).0 h)
    ∙ status_of_code b

module _ {D : Type 0} where
  -- archived, or deleted
  abbrev pub is_retired : Option (AgentRecord D) → Bool
  is_retired none = true
  is_retired (some r) = same_status r.status archived

  -- the calls, but those of `update`, which may set any field; the record `j` is not created anew,
  -- because a record gets a fresh UUID
  pub data Step (j : Text) : Catalog D → Catalog D → Type 0 where
    creates :
        (c : Catalog D) (r : AgentRecord D) → (r.agent_id == j) ≡ false → Step j c (create c r).0
    transitions :
        (c : Catalog D) (agent_id : Text) (requested : AgentRecordStatus) (now : Time)
        → Step j c (transition c agent_id requested now).0
    disables : (c : Catalog D) (agent_id : Text) (now : Time) → Step j c (disable c agent_id now).0
    versions_up :
        (c : Catalog D) (agent_id : Text) (v : AgentVersion D) (now : Time)
        → Step j c (add_version c agent_id v now).0
    deletes : (c : Catalog D) (agent_id : Text) → Step j c (delete c agent_id).0

  pub data Reach (j : Text) (c : Catalog D) : Catalog D → Type 0 where
    at_start : Reach j c c
    after : {c' c'' : Catalog D} → Reach j c c' → Step j c' c'' → Reach j c c''

  -- A write of one record that is allowed if the old record there was retired.
  put_retired :
      (c : Catalog D) (agent_id j : Text) (r : AgentRecord D)
      → (agent_id ≡ j → is_retired (some r) ≡ true)
      → is_retired (get c j) ≡ true
      → is_retired (get (put c agent_id r) j) ≡ true
  put_retired c agent_id j r ok h = elim (Bool-cases (agent_id == j)) [
    | inl same ↦ rw (get-put c agent_id j r, same) (ok ((text_same_iff agent_id j).0 same))
    | inr other ↦ rw (get-put c agent_id j r, other) h
  ]

  transition_retired :
      (c : Catalog D) (agent_id : Text) (requested : AgentRecordStatus) (now : Time) (j : Text)
      (found : Option (AgentRecord D))
      → get c agent_id ≡ found
      → is_retired (get c j) ≡ true
      → is_retired (get (transition_found c agent_id requested now found).0 j) ≡ true
  unfolding transition_found update update_found set_field
  transition_retired c agent_id requested now j none e h = h
  transition_retired c agent_id requested now j (some r) e h =
      elim (Bool-cases (same_status requested r.status)) [
        | inl same ↦ rw same h
        | inr new ↦ elim (Bool-cases (may_become r.status requested)) [
          | inr no_way ↦ rw (new, no_way) h
          | inl allowed ↦
              rw (new, allowed, e)
                (put_retired c agent_id j (record r { status = requested; updated_at = now })
                  (λ here.
                    absurd (cc (allowed, archived_stays r.status requested (rw (← here, e) at h))))
                  h)
        ]
      ]

  add_version_retired :
      (c : Catalog D) (agent_id : Text) (v : AgentVersion D) (now : Time) (j : Text)
      (found : Option (AgentRecord D))
      → get c agent_id ≡ found
      → is_retired (get c j) ≡ true
      → is_retired (get (add_version_found c agent_id v now found).0 j) ≡ true
  unfolding add_version_found
  add_version_retired c agent_id v now j none e h = h
  add_version_retired c agent_id v now j (some r) e h =
      elim (Bool-cases (any (λ (old : AgentVersion D). old.version == v.version) r.versions)) [
        | inl known ↦ rw known h
        | inr new ↦ rw new (put_retired c agent_id j _ (λ here. (rw (← here, e) at h)) h)
      ]

  retired-Step :
      {c c' : Catalog D} (j : Text)
      → Step j c c'
      → is_retired (get c j) ≡ true
      → is_retired (get c' j) ≡ true
  unfolding create transition disable add_version delete
  retired-Step j (creates c r other) h =
      elim (Bool-cases (any (is_named r.name r.tenant_id) (values c))) [
        | inl taken ↦ rw taken h
        | inr free ↦ rw (free, get-put c r.agent_id j r, other) h
      ]
  retired-Step j (transitions c agent_id requested now) h =
      transition_retired c agent_id requested now j (get c agent_id) refl h
  retired-Step j (disables c agent_id now) h =
      transition_retired c agent_id disabled now j (get c agent_id) refl h
  retired-Step j (versions_up c agent_id v now) h =
      add_version_retired c agent_id v now j (get c agent_id) refl h
  retired-Step j (deletes c agent_id) h = elim (Bool-cases (agent_id == j)) [
    | inl same ↦ rw (get-erase c agent_id j, same) refl
    | inr other ↦ rw (get-erase c agent_id j, other) h
  ]

  -- A record that is archived stays archived until it is deleted, whatever creations of other
  -- records, transitions, disablings, new versions and deletions follow.
  pub archived_final :
      (j : Text) {c c' : Catalog D}
      → Reach j c c'
      → is_retired (get c j) ≡ true
      → is_retired (get c' j) ≡ true
  archived_final j at_start h = h
  archived_final j (after r st) h = retired-Step j st (archived_final j r h)

  -- A transition that succeeds leaves the record with the requested status, which is the status it
  -- had or one that the table of transitions allows from there, and the same name and versions.
  pub transition_moves :
      (c : Catalog D) (agent_id : Text) (requested : AgentRecordStatus) (now : Time)
      {r' : AgentRecord D}
      → (transition c agent_id requested now).1 ≡ returned r'
      → (r : AgentRecord D) × (get c agent_id ≡ some r)
        × (get (transition c agent_id requested now).0 agent_id ≡ some r')
        × (r'.status ≡ requested)
        × (same_status requested r.status || may_become r.status requested ≡ true)
        × (r'.name ≡ r.name)
        × (r'.versions ≡ r.versions)
  unfolding transition transition_found update update_found set_field
  transition_moves c agent_id requested now {r'} h = found_moves (get c agent_id) refl h
    where
      found_moves :
          (found : Option (AgentRecord D))
          → get c agent_id ≡ found
          → (transition_found c agent_id requested now found).1 ≡ returned r'
          → (r : AgentRecord D) × (found ≡ some r)
            × (get (transition_found c agent_id requested now found).0 agent_id ≡ some r')
            × (r'.status ≡ requested)
            × (same_status requested r.status || may_become r.status requested ≡ true)
            × (r'.name ≡ r.name)
            × (r'.versions ≡ r.versions)
      found_moves none e h = cc
      found_moves (some r) e h = elim (Bool-cases (same_status requested r.status)) [
        | inl same ↦
            let kept : r ≡ r' = ground arith in
            (
              r,
              refl,
              rw same (e ∙ ap some kept),
              rw (← kept) (sym (same_status_iff requested r.status same)),
              rw same refl,
              rw kept refl,
              rw kept refl,
            )
        | inr new ↦ elim (Bool-cases (may_become r.status requested)) [
          | inr no_way ↦ absurd (ground arith)
          | inl allowed ↦
              let moved : AgentRecord D = record r { status = requested; updated_at = now } in
              let made : moved ≡ r' = returned_inj (rw (new, allowed, e) at h) in
              (
                r,
                refl,
                rw (new, allowed, e) (get-put_self c agent_id moved ∙ ap some made),
                rw (← made) refl,
                rw (new, allowed) refl,
                rw (← made) refl,
                rw (← made) refl,
              )
        ]
      ]
