-- ===== src/Service/Leased.antt =====
-- The calls that a lease protects, and an operation around them, keep to the fence.
use open_simple_agent.Service.{M, World, Entry}
use open_simple_agent.Service.Interfaces.{Ownership, ProviderApi, ProviderAnswer}
use open_simple_agent.Service.Traces.{Phase, Trace, Runs, Ends, idle, held, fresh}
use open_simple_agent.Service.Owned.{
  Stores, find_record, observe, change_provider, assert_owned, persist, save_owned, owned_operation,
  refresh_status_owned, observed_row, deployment_of, settle, under_lease, acquire_lease,
  release_lease, ask_owned, acquired_note, persisted_note,
}
use open_simple_agent.Base.{Bool, List, Option, false, none, some, true, ◌++◌, ◌∷◌}
use open_simple_agent.Base.Text.{Text}
use open_simple_agent.Lease.{OperationLease}
use open_simple_agent.Repository.Deployments.{DeploymentRecord, Records, postgres, upsert_if_owned}
use open_simple_agent.Service.{
  ServiceError, awaited, call, checked, guard, operation_lost, provider_failed, provider_lacks,
}
use open_simple_agent.Service.Interfaces.{answered, broken, unknown_deployment}
use open_simple_agent.Service.Traces.{
  bind-Runs, changes, finds_current, finds_lost, guard-Runs, passes, pure-Runs, raise-Runs, takes,
  writes,
}
use open_simple_agent.Base.Result.{Result, raised, returned}
use open_simple_agent.Service.{operation_busy}
use open_simple_agent.Service.Traces.{
  from_result-Runs, gives_back, passes-Runs, quiet-Runs, require-Runs,
}

abbrev pub after_check : OperationLease → Bool → Phase
after_check lease true = fresh lease
after_check lease false = held lease

abbrev pub after_acquire : Option OperationLease → Phase
after_acquire none = idle
after_acquire (some lease) = held lease

pub deployment_of-Runs :
    {S : Type 0} {p : Phase} (answer : ProviderAnswer)
    → Runs {S = S} p (deployment_of answer) (λ _. p) p
deployment_of-Runs (answered d) = pure-Runs (λ _. _) d
deployment_of-Runs unknown_deployment = raise-Runs provider_lacks
deployment_of-Runs broken = raise-Runs provider_failed

module _ (O : Ownership) (P : ProviderApi) where
  acquire_found :
      (w : World (Stores O P)) (got : Option OperationLease)
      → Trace w.log idle
      → Trace (acquired_note got ++ w.log) (after_acquire got)
  acquire_found w none t = t
  acquire_found w (some lease) t = takes t

  pub acquire_lease-Runs :
      (tenant_id : Option Text) (resource_id operation_id : Text)
      → Runs idle (acquire_lease O P postgres tenant_id resource_id operation_id) after_acquire idle
  unfolding acquire_lease call
  acquire_lease-Runs tenant_id resource_id operation_id = record {
    follow = λ w t. acquire_found w _ t;
  }

  ask_found :
      (log : List Entry) (lease : OperationLease) (current : Bool)
      → Trace log (held lease)
      → Trace (checked lease current ∷ log) (after_check lease current)
  ask_found log lease true t = finds_current t
  ask_found log lease false t = finds_lost t

  pub ask_owned-Runs :
      (lease : OperationLease)
      → Runs (held lease) (ask_owned O P postgres lease) (after_check lease) (held lease)
  unfolding ask_owned call
  ask_owned-Runs lease = record { follow = λ w t. ask_found w.log lease _ t }

  guard_current :
      (lease : OperationLease) (current : Bool) (x : ServiceError)
      → Runs {S = Stores O P}
          (after_check lease current)
          (guard current x)
          (λ _. fresh lease)
          (held lease)
  guard_current lease true x = pure-Runs (λ _. fresh lease) tt
  guard_current lease false x = raise-Runs x

  pub assert_owned-Runs :
      (lease : OperationLease)
      → Runs (held lease) (assert_owned O P postgres lease) (λ _. fresh lease) (held lease)
  unfolding assert_owned
  assert_owned-Runs lease =
      bind-Runs (ask_owned-Runs lease) (λ current. guard_current lease current operation_lost)

  pub change_provider-Runs :
      (lease : OperationLease) (ask : P.State → P.State × ProviderAnswer)
      → Runs (fresh lease) (change_provider O P postgres ask) (λ _. held lease) (held lease)
  unfolding change_provider call
  change_provider-Runs lease ask = record { follow = λ w t. changes t }

  pub save_owned-Runs :
      (row : DeploymentRecord) (lease : OperationLease)
      → Runs (fresh lease) (save_owned O P postgres row lease) (λ _. held lease) (held lease)
  unfolding save_owned call upsert_if_owned
  save_owned-Runs row lease = record {
    follow = λ w t.
        save_found w t (awaited w).shared.records
          (O.is_current (awaited w).shared.ownership lease (awaited w).shared.clock);
  }
    where
      save_found :
          (w : World (Stores O P))
          → Trace w.log (fresh lease)
          → (rows : Records) (current : Bool)
          → Trace
              (persisted_note row lease (current, (upsert_if_owned postgres rows row current).1)
                ++ w.log)
              (held lease)
      save_found w t rows true = writes t
      save_found w t rows false = passes t

  pub persist-Runs :
      (row : DeploymentRecord) (lease : OperationLease)
      → Runs (held lease) (persist O P postgres row lease) (λ _. held lease) (held lease)
  unfolding persist
  persist-Runs row lease = bind-Runs (assert_owned-Runs lease) (λ _.
      bind-Runs (save_owned-Runs row lease)
        (λ (current, written). guard-Runs written operation_lost))

  pub refresh_status_owned-Runs :
      (deployment_id : Text) (lease : OperationLease)
      → Runs
          (held lease)
          (refresh_status_owned O P postgres deployment_id lease)
          (λ _. held lease)
          (held lease)
  unfolding refresh_status_owned observe find_record
  refresh_status_owned-Runs deployment_id lease = bind-Runs (quiet-Runs _) (λ answer.
      bind-Runs (deployment_of-Runs answer) (λ observed. bind-Runs (assert_owned-Runs lease) (λ _.
        bind-Runs (passes-Runs (quiet-Runs _)) (λ stored. bind-Runs (require-Runs stored _) (λ row.
          bind-Runs (persist-Runs (observed_row row observed) lease)
            (λ _. pure-Runs (λ _. held lease) _))))))

  -- a body that the lease protects
  abbrev pub Protected : {A : Type 0} → (OperationLease → M (Stores O P) A) → Type 0
  Protected body =
      (lease : OperationLease) → Runs (held lease) (body lease) (λ _. held lease) (held lease)

  pub release_lease-Runs :
      (lease : OperationLease)
      → Runs (held lease) (release_lease O P postgres lease) (λ _. idle) idle
  unfolding release_lease call
  release_lease-Runs lease = record { follow = λ w t. gives_back t }

  -- an outcome, whatever it is, leaves the lease to release
  Ends-held :
      {A : Type 0} (lease : OperationLease) (w : World (Stores O P))
      (outcome : Result ServiceError A)
      → Ends (λ _. held lease) (held lease) (w, outcome)
      → Trace w.log (held lease)
  Ends-held lease w (raised x) t = t
  Ends-held lease w (returned a) t = t

  pub settle-Ends :
      {A : Type 0} (lease : OperationLease) (x : World (Stores O P) × Result ServiceError A)
      → Ends (λ _. held lease) (held lease) x
      → Ends (λ _. idle) idle (settle O P postgres lease x)
  unfolding settle
  settle-Ends lease (w, outcome) t =
      (bind-Runs (release_lease-Runs lease) (λ accepted.
          bind-Runs (guard-Runs accepted operation_lost) (λ _. from_result-Runs outcome))).follow
        w (Ends-held lease w outcome t)

  pub under_lease-Runs :
      {A : Type 0} {body : OperationLease → M (Stores O P) A} (got : Option OperationLease)
      → Protected body
      → Runs (after_acquire got) (under_lease O P postgres body got) (λ _. idle) idle
  unfolding under_lease
  under_lease-Runs none run = raise-Runs operation_busy
  under_lease-Runs {body} (some lease) run = record {
    follow = λ w t.
        settle-Ends lease _
          ((bind-Runs (assert_owned-Runs lease) (λ _. passes-Runs (run lease))).follow w t);
  }

  pub owned_operation-Runs :
      {A : Type 0} {body : OperationLease → M (Stores O P) A} (tenant_id : Option Text)
      (resource_id operation_id : Text)
      → Protected body
      → Runs idle
          (owned_operation O P postgres tenant_id resource_id operation_id body)
          (λ _. idle)
          idle
  unfolding owned_operation
  owned_operation-Runs tenant_id resource_id operation_id run =
      bind-Runs (acquire_lease-Runs tenant_id resource_id operation_id)
        (λ got. under_lease-Runs got run)
