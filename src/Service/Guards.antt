-- ===== src/Service/Guards.antt =====
-- What `deploy` refuses, and which version a rollback takes.
use open_simple_agent.Base.Dict.{get}
use mathlib.Core.List.{Mem, mem-cons_self, mem-cons_of_mem}
use open_simple_agent.Catalog.{active}
use open_simple_agent.Service.{World, ServiceError, call}
use open_simple_agent.Service.Interfaces.{Ownership, ProviderApi, AgentDefinition}
use open_simple_agent.Service.Owned.{Stores, find_agent}
use open_simple_agent.Service.Operations.{Surroundings, deploy, deployable}
use open_simple_agent.Service.Snapshots.{
  rollback_snapshot, rollback_target, find_version, last, snapshot_definition, previous_versions,
}
use open_simple_agent.Base.Result.{raised, returned, returned_bind, returned_inj}
use open_simple_agent.Base.{
  Bool-cases, List, Option-cases, arith, false, inl, inr, none, refl, some, true, ◌≡◌, ◌⊎◌,
}
use open_simple_agent.Base.Same.{nat_eq, option_eq, pair_eq, ◌==◌}
use open_simple_agent.Base.Text.{Text, text, text_eq}
use open_simple_agent.Catalog.{AgentRecord, AgentVersion, same_status}
use open_simple_agent.Repository.Deployments.{RecordStore}
use open_simple_agent.Service.{awaited, external_agent, no_definition, not_active}
use open_simple_agent.Base.{Bool, Option, [], ap, ◌∙◌, ◌∷◌}
use open_simple_agent.Base.Lists.{filter}
use open_simple_agent.Base.Text.{text_same_iff}
use open_simple_agent.Base.{not, sym}
use open_simple_agent.Base.Lists.{All}

refused :
    (agent : AgentRecord AgentDefinition)
    → (agent.definition ≡ none)
      ⊎ (same_status agent.status active ≡ false)
      ⊎ ((agent.agent_type == text "external") ≡ true)
    → (e : ServiceError) × (deployable agent ≡ raised e)
unfolding deployable
refused agent h = elim (Option-cases agent.definition) [
  | inl missing ↦ (no_definition, rw missing refl)
  | inr (d, there) ↦ elim (Bool-cases (same_status agent.status active)) [
    | inr away ↦ (not_active, rw (there, away) refl)
    | inl on ↦ (external_agent, rw (there, on, external h there on) refl)
  ]
]
  where
    external :
        {d : AgentDefinition}
        → (agent.definition ≡ none)
          ⊎ (same_status agent.status active ≡ false)
          ⊎ ((agent.agent_type == text "external") ≡ true)
        → agent.definition ≡ some d
        → same_status agent.status active ≡ true
        → (agent.agent_type == text "external") ≡ true
    external h there on = ground arith

-- The deployment of an agent that has no definition, is not active, or is external ends with an error
-- after its record has been read: nothing has been written, asked of the provider, or leased.
pub deploy_refused :
    (O : Ownership) (P : ProviderApi) (R : RecordStore) (c : Surroundings) (agent_id : Text)
    (w : World (Stores O P)) {agent : AgentRecord AgentDefinition}
    → get (awaited w).shared.agents agent_id ≡ some agent
    → (agent.definition ≡ none)
      ⊎ (same_status agent.status active ≡ false)
      ⊎ ((agent.agent_type == text "external") ≡ true)
    → (e : ServiceError) × (deploy O P R c agent_id w ≡ (awaited w, raised e))
unfolding deploy find_agent call
deploy_refused O P R c agent_id w {agent} found h =
    let (e, out) = refused agent h in (e, rw (found, out) refl)

-- the first version of that name is one of the versions
find_version_found :
    (target : Text) (vs : List (AgentVersion AgentDefinition)) {v : AgentVersion AgentDefinition}
    → find_version target vs ≡ some v
    → (v.version ≡ target) × Mem v vs
find_version_found target [] h = cc
find_version_found target (u ∷ us) {v} h = elim (Bool-cases (u.version == target)) [
  | inl same ↦
      let one : ◌≡◌ {A = Option (AgentVersion AgentDefinition)} (some u) (some v) = rw same at h in
      let eq : u ≡ v = cc in
      (rw (← eq) ((text_same_iff u.version target).0 same), rw (← eq) mem-cons_self)
  | inr other ↦
      let (e, m) = find_version_found target us {v = v} (rw other at h) in (e, mem-cons_of_mem u m)
]

last_All : {A : Type 0} (Q : A → Type 0) (xs : List A) {x : A} → All Q xs → last xs ≡ some x → Q x
last_All Q [] all h = cc
last_All Q (y ∷ []) {x} (q, _) h = let eq : y ≡ x = cc in rw (← eq) q
last_All Q (y ∷ z ∷ rest) {x} (_, all) h = last_All Q (z ∷ rest) {x = x} all h

filter-All :
    {A : Type 0} (test : A → Bool) (xs : List A) → All (λ x. test x ≡ true) (filter test xs)
filter-All test [] = tt
filter-All test (y ∷ ys) = elim (Bool-cases (test y)) [
  | inl passed ↦ rw passed (passed, filter-All test ys)
  | inr other ↦ rw other (filter-All test ys)
]

snapshot_found :
    (target : Text) (found : Option (AgentVersion AgentDefinition)) {d : AgentDefinition}
    → snapshot_definition target found ≡ returned d
    → (v : AgentVersion AgentDefinition) × (found ≡ some v) × (v.definition ≡ some d)
snapshot_found target none h = cc
snapshot_found target (some v) {d} h = elim (Option-cases v.definition) [
  | inl missing ↦ absurd (cc (rw missing at h))
  | inr (e, stored) ↦
      let eq : e ≡ d = returned_inj (rw stored at h) in (v, refl, stored ∙ ap some eq)
]

target_cases :
    (agent : AgentRecord AgentDefinition) (to_version : Option Text) {t : Text}
    → rollback_target agent to_version ≡ returned t
    → (to_version ≡ none → (t == agent.current_version) ≡ false)
      × ((version : Text) → to_version ≡ some version → t ≡ version)
unfolding rollback_target
target_cases agent (some version) h = (λ asked. cc, λ v asked. cc)
target_cases agent none {t} h = elim (Option-cases (last (previous_versions agent))) [
  | inl nothing_left ↦ absurd (cc (rw nothing_left at h))
  | inr (v, newest) ↦
      let eq : v.version ≡ t = returned_inj (rw newest at h) in
      let other =
        last_All (λ u. not (u.version == agent.current_version) ≡ true) (previous_versions agent)
          (filter-All _ agent.versions) newest in
      (λ _. rw (← eq) (ground (arith, other)), λ version asked. cc)
]

-- The version that a rollback takes has a definition in the agent's history; where none is asked for,
-- it is not the current one.
pub rollback_snapshot_found :
    (agent : AgentRecord AgentDefinition) (to_version : Option Text) {target : Text}
    {d : AgentDefinition}
    → rollback_snapshot agent to_version ≡ returned (target, d)
    → ((v : AgentVersion AgentDefinition) × Mem v agent.versions
        × (v.version ≡ target)
        × (v.definition ≡ some d))
      × (to_version ≡ none → (target == agent.current_version) ≡ false)
      × ((version : Text) → to_version ≡ some version → target ≡ version)
unfolding rollback_snapshot
rollback_snapshot_found agent to_version {target} {d} h =
    let (t, chosen, rest) = returned_bind (rollback_target agent to_version) _ h in
    let (e, defined, pair) =
      returned_bind (snapshot_definition t (find_version t agent.versions)) _ rest in
    let both : ◌≡◌ {A = Text × AgentDefinition} (t, e) (target, d) = returned_inj pair in
    let one : t ≡ target = ap (λ x. x.0) both in
    let two : e ≡ d = ap (λ x. x.1) both in
    let (v, found, stored) = snapshot_found t (find_version t agent.versions) defined in
    let (named, inside) = find_version_found t agent.versions found in
    let (implicit_target, explicit_target) = target_cases agent to_version chosen in
    (
      (v, inside, named ∙ one, stored ∙ ap some two),
      λ none_asked. rw (← one) (implicit_target none_asked),
      λ version asked. sym one ∙ explicit_target version asked,
    )
