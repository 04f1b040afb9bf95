-- ===== src/Deployment/Running.antt =====
-- What a deploy, a restart and a stop of the local provider do to the deployments that it knows.
use open_simple_agent.Base.Dict.{get, erase}
use open_simple_agent.Deployment.{Deployment, DeploymentSpec, is_running}
use open_simple_agent.Deployment.Local.{
  Provider, begin_deploy, stop, status, same_target, first_reusable, is_reusable, rekey, move_key,
  begin_found,
}
use open_simple_agent.Base.{
  Bool, Bool-cases, List, Option, [], arith, inl, inr, none, refl, some, true, ℕ, ◌∷◌, ◌≡◌,
}
use open_simple_agent.Base.Dict.{Dict, values}
use open_simple_agent.Base.Same.{nat_eq, option_eq, pair_eq, ◌==◌}
use open_simple_agent.Base.Text.{Text, text_eq, text_same_iff}
use open_simple_agent.Deployment.Local.{Circumstances, Reaction, Spawn, landed, spec_matches}
use open_simple_agent.Base.{false, ◌∙◌, ◌⊎◌}
use open_simple_agent.Base.Dict.{different_sym, get-erase, get-put, get-put_self}
use open_simple_agent.Base.Result.{raised, returned}
use open_simple_agent.Base.Same.{same_refl}
use open_simple_agent.Deployment.{stopped}
use open_simple_agent.Deployment.Local.{
  deploy, deployment_not_found, kill, move_found, redeploy, status_found, stop_found, terminate,
}
use open_simple_agent.Base.{ap}
use open_simple_agent.Base.Result.{returned_inj}
use open_simple_agent.Deployment.Local.{
  exits_on_kill, exits_on_terminate, stop_process, stopped_deployment, survives,
}
use open_simple_agent.Deployment.Local.Tables.{Signal}

-- The first deployment that passes the test is running, and of the agent.
first_reusable-some :
    (p : Provider) (spec : DeploymentSpec) (ds : List Deployment) {d : Deployment}
    → first_reusable p spec ds ≡ some d
    → is_reusable p spec d ≡ true
first_reusable-some p spec [] h = cc
first_reusable-some p spec (e ∷ ds) {d} h = elim (Bool-cases (is_reusable p spec e)) [
  | inl yes_it_is ↦
      let same : ◌≡◌ {A = Option Deployment} (some e) (some d) = rw yes_it_is at h in
      let one : e ≡ d = cc in rw (← one) yes_it_is
  | inr not_it ↦ first_reusable-some p spec ds {d = d} (rw not_it at h)
]

first_reusable_found :
    (p : Provider) (spec : DeploymentSpec) (ds : Dict Text Deployment) (k : Text) {d : Deployment}
    → get ds k ≡ some d
    → is_reusable p spec d ≡ true
    → (d' : Deployment) × (first_reusable p spec (values ds) ≡ some d')
unfolding get
first_reusable_found p spec [] k h ok = cc
first_reusable_found p spec ((j, e) ∷ ds) k {d} h ok = elim (Bool-cases (is_reusable p spec e)) [
  | inl yes_it_is ↦ (e, rw yes_it_is refl)
  | inr not_it ↦ elim (Bool-cases (j == k)) [
    | inl same ↦
        let one : ◌≡◌ {A = Option Deployment} (some e) (some d) = rw same at h in
        let eq : e ≡ d = cc in absurd (cc (ok, not_it, eq))
    | inr other ↦
        let (d', found) = first_reusable_found p spec ds k {d = d} (rw other at h) ok in
        (d', rw not_it found)
  ]
]

-- While a deployment of an agent runs, a deploy for the same agent with the same target (the
-- identity, or the command where none is given) starts no process and changes nothing: it returns
-- a running deployment of that agent and target.
pub no_twin :
    (p : Provider) (spec : DeploymentSpec) (k new_id : Text) (spawn : Spawn) {d : Deployment}
    {existing : DeploymentSpec}
    → get p.deployments k ≡ some d
    → is_running d.status ≡ true
    → d.agent_id ≡ spec.agent_id
    → get p.specs d.deployment_id ≡ some existing
    → same_target spec existing ≡ true
    → (d' : Deployment) × (begin_deploy p spec new_id spawn ≡ (p, landed d'))
      × (is_running d'.status ≡ true)
      × (d'.agent_id ≡ spec.agent_id)
      × (spec_matches spec (get p.specs d'.deployment_id) ≡ true)
unfolding begin_deploy begin_found
no_twin p spec k new_id spawn {d} {existing} known live agent stored target =
    let ok : is_reusable p spec d ≡ true =
      rw (stored, live, target, (text_same_iff d.agent_id spec.agent_id).1 agent) refl in
    let (d', found) = first_reusable_found p spec p.deployments k known ok in
    let good = first_reusable-some p spec (values p.deployments) found in
    (
      d',
      rw found refl,
      ground (arith, good),
      (text_same_iff d'.agent_id spec.agent_id).0 (ground (arith, good)),
      ground (arith, good),
    )

-- Where the deploy of a restart lands on a deployment that runs already, under another identity,
-- that deployment takes the identity of the restarted one: the call returns it, and its own
-- identity is no longer known.
pub restart_takes_twin :
    (p : Provider) (old : Text) (spec : DeploymentSpec) (c : Circumstances) (halted : Deployment)
    {twin : Deployment}
    → begin_deploy p spec c.new_id c.spawn ≡ (p, landed twin)
    → get p.deployments twin.deployment_id ≡ some twin
    → (twin.deployment_id == old) ≡ false
    → let q = redeploy p old spec c (returned halted) in
      (q.1 ≡ returned (record twin { deployment_id = old }))
      × ((exit_code : Option ℕ)
          → (status q.0 twin.deployment_id exit_code).1
            ≡ raised (deployment_not_found twin.deployment_id))
unfolding redeploy deploy rekey move_key status status_found
restart_takes_twin p old spec c halted {twin} lands known other =
    let d = move_found p.deployments twin.deployment_id old (some twin) in
    let at_old : get d old ≡ some twin =
      get-put_self (erase p.deployments twin.deployment_id) old twin in
    let away = different_sym twin.deployment_id old other in
    let at_new : get d twin.deployment_id ≡ none =
      get-put (erase p.deployments twin.deployment_id) old twin.deployment_id twin
      ∙ rw
          (
            away,
            get-erase p.deployments twin.deployment_id twin.deployment_id,
            same_refl twin.deployment_id,
          )
          refl in
    (
      rw (lands, other, known, at_old, get-put_self d old (record twin { deployment_id = old }))
          refl,
      λ exit_code.
          rw
            (
              lands,
              other,
              known,
              at_old,
              get-put d old twin.deployment_id (record twin { deployment_id = old }),
              away,
              at_new,
            )
            refl,
    )

-- a process that ends on its termination gets that signal alone, one that does not is killed too
abbrev pub Signalled : Reaction → ℕ → List Signal → Type 0
Signalled reaction pid signals =
    ((reaction ≡ exits_on_terminate) × (signals ≡ terminate pid ∷ []))
    ⊎ ((reaction ≡ exits_on_kill) × (signals ≡ terminate pid ∷ kill pid ∷ []))

stop_process_signals :
    (process : Option ℕ) (alive : Bool) (reaction : Reaction) (pid : ℕ)
    → (stop_process process alive reaction).1 ≡ true
    → process ≡ some pid
    → alive ≡ true
    → Signalled reaction pid (stop_process process alive reaction).0
unfolding stop_process
stop_process_signals none alive reaction pid ended e a = cc
stop_process_signals (some q) false reaction pid ended e a = cc
stop_process_signals (some q) true exits_on_terminate pid ended e a = inl (refl, cc)
stop_process_signals (some q) true exits_on_kill pid ended e a = inr (refl, cc)
stop_process_signals (some q) true survives pid ended e a = cc

-- A stop that returns leaves the deployment stopped, with no error and no process held. A process
-- that was alive has been told to terminate; it was killed too if that did not end it, and only then.
pub stop_ends :
    (p : Provider) (deployment_id : Text) (alive : Bool) (reaction : Reaction) {d' : Deployment}
    → (stop p deployment_id alive reaction).1 ≡ returned d'
    → let q = stop p deployment_id alive reaction in
      (get q.0.0.deployments deployment_id ≡ some d')
      × (d'.status ≡ stopped)
      × (d'.error ≡ none)
      × (get q.0.0.processes deployment_id ≡ none)
      × ((pid : ℕ)
          → get p.processes deployment_id ≡ some pid
          → alive ≡ true
          → Signalled reaction pid q.0.1)
unfolding stop stop_found
stop_ends p j alive reaction {d'} h = found_ends (get p.deployments j) h
  where
    found_ends :
        (found : Option Deployment)
        → (stop_found p j alive reaction found).1 ≡ returned d'
        → let q = stop_found p j alive reaction found in
          (get q.0.0.deployments j ≡ some d')
          × (d'.status ≡ stopped)
          × (d'.error ≡ none)
          × (get q.0.0.processes j ≡ none)
          × ((pid : ℕ) → get p.processes j ≡ some pid → alive ≡ true → Signalled reaction pid q.0.1)
    found_ends none h = cc
    found_ends (some d) h = elim (Bool-cases (stop_process (get p.processes j) alive reaction).1) [
      | inr lives ↦ absurd (ground arith)
      | inl ended ↦
          let kept : stopped_deployment d ≡ d' = returned_inj (rw ended at h) in
          (
            rw ended (get-put_self p.deployments j (stopped_deployment d) ∙ ap some kept),
            rw (← kept) refl,
            rw (← kept) refl,
            rw (ended, get-erase p.processes j j, same_refl j) refl,
            λ pid held a.
                rw ended (stop_process_signals (get p.processes j) alive reaction pid ended held a),
          )
    ]
