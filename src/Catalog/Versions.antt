-- ===== src/Catalog/Versions.antt =====
-- Versions of an agent record, and updates that expect a version.
use open_simple_agent.Base.Dict.{get}
use open_simple_agent.Catalog.Records.{
  update, update_found, add_version, add_version_found, Catalog,
}
use open_simple_agent.Base.{Bool, List, [], arith, false, refl, some, ◌++◌, ◌||◌, ◌∷◌, ◌≡◌}
use open_simple_agent.Base.Clock.{Time}
use open_simple_agent.Base.Lists.{any}
use open_simple_agent.Base.Result.{raised, returned}
use open_simple_agent.Base.Same.{nat_eq, option_eq, pair_eq, ◌==◌}
use open_simple_agent.Base.Text.{Text, text_eq, text_same_iff}
use open_simple_agent.Catalog.{AgentRecord, AgentVersion, concurrent_update}
use open_simple_agent.Catalog.Records.{FieldChange}
use open_simple_agent.Base.{Bool-cases, Option, Option-cases, inl, inr, none}
use open_simple_agent.Base.Dict.{get-put_self}
use open_simple_agent.Catalog.Records.{is_conflict, or_old, set_fields, snapshot_version, versioned}

module _ {D : Type 0} where
  -- a version with this identifier is in the list
  abbrev pub has_version : Text → List (AgentVersion D) → Bool
  has_version version versions = any (λ (old : AgentVersion D). old.version == version) versions

  abbrev pub AllDistinct : List (AgentVersion D) → Type 0
  AllDistinct [] = Unit
  AllDistinct (v ∷ vs) = (has_version v.version vs ≡ false) × AllDistinct vs

  has_version-append :
      (version : Text) (vs : List (AgentVersion D)) (v : AgentVersion D)
      → has_version version (vs ++ (v ∷ [])) ≡ (has_version version vs || (v.version == version))
  has_version-append version [] v = ground arith
  has_version-append version (old ∷ vs) v = ground (arith, has_version-append version vs v)

  append-AllDistinct :
      (vs : List (AgentVersion D)) (v : AgentVersion D)
      → has_version v.version vs ≡ false
      → AllDistinct vs
      → AllDistinct (vs ++ (v ∷ []))
  append-AllDistinct [] v new rest = (refl, tt)
  append-AllDistinct (old ∷ vs) v new (fresh, rest) = (
    ground (
      arith,
      has_version-append old.version vs v,
      text_same_iff old.version v.version,
      text_same_iff v.version old.version,
    ),
    append-AllDistinct vs v (ground arith) rest,
  )

  old_definition :
      (r : AgentRecord D) (v : AgentVersion D)
      → or_old (snapshot_version r v).definition r.definition ≡ (snapshot_version r v).definition
  old_definition r v = elim (Option-cases v.definition) [
    | inr (d, given) ↦ rw given refl
    | inl missing ↦ rw missing (elim (Option-cases r.definition) [
      | inl none_there ↦ rw none_there refl
      | inr (d, there) ↦ rw there refl
    ])
  ]

  -- A version that is accepted is new to its record, is added at the end, and becomes the current
  -- one; its definition becomes that of the record, unless neither has any. If the versions of the
  -- record had different identifiers before, they still have.
  pub add_version-AllDistinct :
      (c : Catalog D) (agent_id : Text) (v : AgentVersion D) (now : Time) {stored : AgentVersion D}
      → (add_version c agent_id v now).1 ≡ returned stored
      → (r r' : AgentRecord D) × (get c agent_id ≡ some r)
        × (get (add_version c agent_id v now).0 agent_id ≡ some r')
        × (has_version v.version r.versions ≡ false)
        × (r'.versions ≡ r.versions ++ (stored ∷ []))
        × (r'.current_version ≡ v.version)
        × (r'.definition ≡ stored.definition)
        × (AllDistinct r.versions → AllDistinct r'.versions)
  unfolding add_version add_version_found
  add_version-AllDistinct c agent_id v now {stored} h = found_distinct (get c agent_id) refl h
    where
      found_distinct :
          (found : Option (AgentRecord D))
          → get c agent_id ≡ found
          → (add_version_found c agent_id v now found).1 ≡ returned stored
          → (r r' : AgentRecord D) × (found ≡ some r)
            × (get (add_version_found c agent_id v now found).0 agent_id ≡ some r')
            × (has_version v.version r.versions ≡ false)
            × (r'.versions ≡ r.versions ++ (stored ∷ []))
            × (r'.current_version ≡ v.version)
            × (r'.definition ≡ stored.definition)
            × (AllDistinct r.versions → AllDistinct r'.versions)
      found_distinct none e h = cc
      found_distinct (some r) e h = elim (Bool-cases (has_version v.version r.versions)) [
        | inl known ↦ absurd (ground arith)
        | inr new ↦
            let kept : snapshot_version r v ≡ stored = ground arith in
            (
              r,
              versioned r (snapshot_version r v) now,
              refl,
              rw new (get-put_self c agent_id (versioned r (snapshot_version r v) now)),
              new,
              rw kept refl,
              refl,
              rw (← kept) (old_definition r v),
              λ distinct. append-AllDistinct r.versions (snapshot_version r v) new distinct,
            )
      ]

  update-get :
      (c : Catalog D) (agent_id : Text) (expected : Option Text) (changes : List (FieldChange D))
      (now : Time) {r : AgentRecord D} (found : Option (AgentRecord D))
      → (update_found c agent_id expected changes now found).1 ≡ returned r
      → get (update_found c agent_id expected changes now found).0 agent_id ≡ some r
  unfolding update_found
  update-get c agent_id expected changes now {r} none h = cc
  update-get c agent_id expected changes now {r} (some old) h =
      elim (Bool-cases (is_conflict expected old)) [
        | inl conflict ↦ absurd (ground arith)
        | inr agreed ↦
            let written : record (set_fields old changes) { updated_at = now } ≡ r = ground arith in
            rw (agreed, written) (get-put_self c agent_id r)
      ]

  -- Of two updates that expect the same version, the second is refused with no effect once the
  -- first has changed the version.
  pub update_conflict :
      (c : Catalog D) (agent_id expected : Text) (changes : List (FieldChange D)) (now : Time)
      {r : AgentRecord D}
      → (update c agent_id (some expected) changes now).1 ≡ returned r
      → r.current_version == expected ≡ false
      → (changes' : List (FieldChange D)) (now' : Time)
      → let c' = (update c agent_id (some expected) changes now).0 in
        update c' agent_id (some expected) changes' now'
        ≡ (c', raised (concurrent_update agent_id expected))
  unfolding update update_found
  update_conflict c agent_id expected changes now {r} h moved changes' now' =
      rw (update-get c agent_id (some expected) changes now {r = r} (get c agent_id) h)
        (refused r moved)
    where
      refused :
          {c' : Catalog D} (r : AgentRecord D)
          → r.current_version == expected ≡ false
          → update_found c' agent_id (some expected) changes' now' (some r)
            ≡ (c', raised (concurrent_update agent_id expected))
      refused r moved = rw moved refl
