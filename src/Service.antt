-- ===== src/Service.antt =====
-- control-plane/backend/src/osa/control_plane/backend/deployment_service.py: `DeploymentService`,
-- which deploys versioned agents through a provider, each operation under a fenced lease. This
-- file has the records, the errors, and the monad of its coroutines.
--
-- At every `await` of a call to a store or to the provider, other workers may act: a coroutine
-- takes a schedule, a list of what the others do before each such call. A log notes the calls that
-- a fence protects. The agent lock, which only orders the operations of one process, and the
-- heartbeat task, which is one of the others, are not modelled apart.
pub mod Interfaces
pub mod Settings
pub mod References
pub mod Kinds
pub mod Bundles
pub mod Owned
pub mod Operations
pub mod Snapshots
pub mod Rollback
pub mod Commands
pub mod Traces
pub mod Leased
pub mod Fencing
pub mod Guards
pub mod External
pub mod Release
mod Tests
use open_simple_agent.Base.{Bool, List, Option, [], false, none, some, true, ◌++◌, ◌∷◌}
use open_simple_agent.Base.Result.{Result, raised, returned}
use open_simple_agent.Base.Text.{Text}
use open_simple_agent.Lease.{OperationLease}
use open_simple_agent.Repository.Deployments.{DeploymentRecord}

-- the kinds of resources that an agent refers to
pub data ResourceKind : Type 0 where
  models tools skills mcps memory_policies : ResourceKind

pub data ServiceError : Type 0 where
  agent_not_found deployment_not_found : Text → ServiceError
  no_definition not_active external_agent agent_gone no_earlier_version : ServiceError
  no_snapshot : (version : Text) → ServiceError
  operation_busy operation_lost : ServiceError
  missing_reference : (kind : ResourceKind) (name : Text) → ServiceError
  unable_to_stop rollback_failed : ServiceError
  bad_port bad_number shared_needs_cluster image_required : ServiceError
  unsupported_provider : (name : Text) → ServiceError
  provider_lacks provider_failed : ServiceError

-- what the fence is about: a lease that is taken, a check of it with its answer, a call that changes
-- the provider, a write of a record and whether the lease was current then, and a release
pub data Entry : Type 0 where
  acquired : (lease : OperationLease) → Entry
  checked : (lease : OperationLease) (current : Bool) → Entry
  provider_changed : Entry
  persisted : (row : DeploymentRecord) (lease : OperationLease) (current : Bool) → Entry
  released : (lease : OperationLease) (accepted : Bool) → Entry

-- the stores, the rest of the schedule, and the log, the newest entry first
pub record World (S : Type 0) : Type 0 where
  pub shared : S
  pub schedule : List (S → S)
  pub log : List Entry

abbrev pub M : Type 0 → Type 0 → Type 0
M S A = World S → World S × Result ServiceError A

-- what the others do before the next call
abbrev pub next_shared : {S : Type 0} → List (S → S) → S → S
next_shared [] s = s
next_shared (others ∷ rest) s = others s

abbrev pub next_schedule : {S : Type 0} → List (S → S) → List (S → S)
next_schedule [] = []
next_schedule (others ∷ rest) = rest

module _ {S : Type 0} where
  abbrev pub pure : {A : Type 0} → A → M S A
  pure a w = (w, returned a)

  abbrev pub raise : {A : Type 0} → ServiceError → M S A
  raise e w = (w, raised e)

  -- the rest of a coroutine, after the result of its first part
  abbrev pub proceed :
      {A B : Type 0}
      → World S × Result ServiceError A
      → (A → M S B)
      → World S × Result ServiceError B
  proceed (w, raised e) k = (w, raised e)
  proceed (w, returned a) k = k a w

  infixl 5 ◌>>=◌ ◌>>◌
  abbrev pub ◌>>=◌ : {A B : Type 0} → M S A → (A → M S B) → M S B
  ◌>>=◌ m k w = proceed (m w) k

  abbrev pub ◌>>◌ : {A B : Type 0} → M S A → M S B → M S B
  m >> k = m >>= λ _. k

  abbrev pub guard : Bool → ServiceError → M S (Unit {0})
  guard true e = pure tt
  guard false e = raise e

  -- `some` value, or an exception
  abbrev pub require : {A : Type 0} → Option A → ServiceError → M S A
  require none e = raise e
  require (some a) e = pure a

  abbrev pub from_result : {A : Type 0} → Result ServiceError A → M S A
  from_result r w = (w, r)

  -- the world in which an awaited call runs
  abbrev pub awaited : World S → World S
  awaited w = record w {
    shared = next_shared w.schedule w.shared;
    schedule = next_schedule w.schedule;
  }

  -- An awaited call: the others act, then it runs; `note` is what the log keeps of its result.
  unfoldable pub call : {A : Type 0} → (S → S × A) → (A → List Entry) → M S A
  call f note w =
      let before = awaited w in
      let (s', a) = f before.shared in
      (record before { shared = s'; log = note a ++ before.log }, returned a)
