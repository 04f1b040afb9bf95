-- ===== src/Service/Traces.antt =====
-- What the log of a worker shows of the fence, and rules that follow a coroutine's parts.
use open_simple_agent.Base.{Bool, List, Option, [], false, none, some, true, ◌∷◌}
use open_simple_agent.Base.Result.{Result, raised, returned}
use open_simple_agent.Lease.{OperationLease}
use open_simple_agent.Repository.Deployments.{DeploymentRecord}
use open_simple_agent.Service.{
  Entry, M, ServiceError, World, acquired, call, checked, from_result, guard, persisted, proceed,
  provider_changed, pure, raise, released, require, ◌>>=◌,
}

-- Between operations a worker holds nothing; in one it holds a lease, which it may just have found
-- to be current.
pub data Phase : Type 0 where
  idle : Phase
  held fresh : (lease : OperationLease) → Phase

-- The logs, the newest entry first, in which each operation takes one lease and releases it, the
-- provider is changed only right after a check of this lease that found it current, and a record is
-- written only right after such a check and while the lease is current.
pub data Trace : List Entry → Phase → Type 0 where
  nothing : Trace [] idle
  takes :
      {log : List Entry} {lease : OperationLease}
      → Trace log idle
      → Trace (acquired lease ∷ log) (held lease)
  finds_current :
      {log : List Entry} {lease : OperationLease}
      → Trace log (held lease)
      → Trace (checked lease true ∷ log) (fresh lease)
  finds_lost :
      {log : List Entry} {lease : OperationLease}
      → Trace log (held lease)
      → Trace (checked lease false ∷ log) (held lease)
  changes :
      {log : List Entry} {lease : OperationLease}
      → Trace log (fresh lease)
      → Trace (provider_changed ∷ log) (held lease)
  writes :
      {log : List Entry} {row : DeploymentRecord} {lease : OperationLease}
      → Trace log (fresh lease)
      → Trace (persisted row lease true ∷ log) (held lease)
  gives_back :
      {log : List Entry} {lease : OperationLease} {accepted : Bool}
      → Trace log (held lease)
      → Trace (released lease accepted ∷ log) idle
  passes :
      {log : List Entry} {lease : OperationLease} → Trace log (fresh lease) → Trace log (held lease)

-- the phase after a result, or after an exception
abbrev pub Ends : {S A : Type 0} → (A → Phase) → Phase → World S × Result ServiceError A → Type 0
Ends q e (w, raised x) = Trace w.log e
Ends q e (w, returned a) = Trace w.log (q a)

-- From phase `p`, a coroutine ends in phase `q a` with the result `a`, or in phase `e` with an
-- exception.
pub record Runs {S A : Type 0} (p : Phase) (m : M S A) (q : A → Phase) (e : Phase) : Type 0 where
  pub follow : (w : World S) → Trace w.log p → Ends q e (m w)

module _ {S : Type 0} where
  pub pure-Runs : {A : Type 0} {e : Phase} (q : A → Phase) (a : A) → Runs {S = S} (q a) (pure a) q e
  pure-Runs q a = record { follow = λ w t. t }

  pub raise-Runs :
      {A : Type 0} {e : Phase} {q : A → Phase} (x : ServiceError) → Runs {S = S} e (raise x) q e
  raise-Runs x = record { follow = λ w t. t }

  proceed-Ends :
      {A B : Type 0} (e : Phase) (q : A → Phase) (r : B → Phase) (k : A → M S B)
      (x : World S × Result ServiceError A)
      → Ends q e x
      → ((a : A) → Runs (q a) (k a) r e)
      → Ends r e (proceed x k)
  proceed-Ends e q r k (w, raised x) t next = t
  proceed-Ends e q r k (w, returned a) t next = (next a).follow w t

  pub bind-Runs :
      {A B : Type 0} {p e : Phase} {q : A → Phase} {r : B → Phase} {m : M S A} {k : A → M S B}
      → Runs p m q e
      → ((a : A) → Runs (q a) (k a) r e)
      → Runs p (m >>= k) r e
  bind-Runs {e} {q} {r} {m} {k} first next = record {
    follow = λ w t. proceed-Ends e q r k (m w) (first.follow w t) next;
  }

  -- A coroutine that needs only the lease also runs right after a check.
  pub passes-Runs :
      {A : Type 0} {e : Phase} {lease : OperationLease} {q : A → Phase} {m : M S A}
      → Runs (held lease) m q e
      → Runs (fresh lease) m q e
  passes-Runs run = record { follow = λ w t. run.follow w (passes t) }

  pub quiet-Runs : {A : Type 0} {p e : Phase} (f : S → S × A) → Runs p (call f (λ _. [])) (λ _. p) e
  unfolding call
  quiet-Runs f = record { follow = λ w t. t }

  require_found :
      {A : Type 0} (p : Phase) (found : Option A) (x : ServiceError) (w : World S)
      → Trace w.log p
      → Ends (λ (_ : A). p) p (require found x w)
  require_found p none x w t = t
  require_found p (some a) x w t = t

  pub require-Runs :
      {A : Type 0} {p : Phase} (found : Option A) (x : ServiceError)
      → Runs {S = S} p (require found x) (λ _. p) p
  require-Runs {p} found x = record { follow = require_found p found x }

  from_result_found :
      {A : Type 0} (p : Phase) (found : Result ServiceError A) (w : World S)
      → Trace w.log p
      → Ends (λ (_ : A). p) p (from_result found w)
  from_result_found p (raised x) w t = t
  from_result_found p (returned a) w t = t

  pub from_result-Runs :
      {A : Type 0} {p : Phase} (found : Result ServiceError A)
      → Runs {S = S} p (from_result found) (λ _. p) p
  from_result-Runs {p} found = record { follow = from_result_found p found }

  guard_found :
      (p : Phase) (test : Bool) (x : ServiceError) (w : World S)
      → Trace w.log p
      → Ends (λ (_ : Unit {0}). p) p (guard test x w)
  guard_found p true x w t = t
  guard_found p false x w t = t

  pub guard-Runs :
      {p : Phase} (test : Bool) (x : ServiceError) → Runs {S = S} p (guard test x) (λ _. p) p
  guard-Runs {p} test x = record { follow = guard_found p test x }

  -- What is left when an operation that starts without a lease has ended without one.
  pub Ends-idle :
      {A : Type 0} (x : World S × Result ServiceError A)
      → Ends (λ _. idle) idle x
      → Trace x.0.log idle
  Ends-idle (w, raised e) t = t
  Ends-idle (w, returned a) t = t
