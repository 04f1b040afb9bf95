-- ===== src/Lease/Tests.antt =====
-- Concrete runs of the lease stores, and the theorems at concrete inputs.
use open_simple_agent.Base.Dict.{get, put}
use open_simple_agent.Lease.Memory
use open_simple_agent.Lease.Memory.{Store, LeaseEntry}
use open_simple_agent.Lease.Postgres
use open_simple_agent.Lease.Postgres.{OwnerRow, Worker, released}
use open_simple_agent.Base.{Option, [], ap, false, none, refl, some, true, ◌<◌, ◌≡◌}
use open_simple_agent.Base.Dict.{Dict}
use open_simple_agent.Base.Same.{nat_eq, option_eq, pair_eq}
use open_simple_agent.Base.Table.{Table, dict_table}
use open_simple_agent.Base.Text.{Text, text, text_same, text_eq}
use open_simple_agent.Lease.{Key, OperationLease, scope}
use open_simple_agent.Lease.Agreement.{Agrees, acquire_agree}
use open_simple_agent.Lease.Fencing.{acquire_busy, superseded_lease}
use open_simple_agent.Lease.Steps.{at_start}
use open_simple_agent.Base.Result.{returned}

abbrev empty : Store
empty = record { owner_id = text "local-1"; lease_seconds = 30; entries = [] }

abbrev acme : Option Text
acme = some (text "acme")

abbrev first_claim : Store × Option OperationLease
first_claim = Memory.acquire empty acme (text "agent:a") (text "op-1") 1000

abbrev first_lease : OperationLease
first_lease = record {
  tenant_id = acme;
  resource_id = text "agent:a";
  operation_id = text "op-1";
  owner_id = text "local-1";
  fencing_epoch = 1;
  attempt = 1;
  lease_expires_at = 30001000;
}

abbrev second_lease : OperationLease
second_lease = record first_lease {
  operation_id = text "op-2";
  fencing_epoch = 2;
  attempt = 2;
  lease_expires_at = 60001000;
}

first_granted : first_claim.1 ≡ some first_lease
unfolding Memory.acquire Memory.lease_of get scope
first_granted = refl

second_granted :
    (Memory.acquire first_claim.0 acme (text "agent:a") (text "op-2") 30001000).1
    ≡ some second_lease
unfolding Memory.acquire Memory.lease_of get put scope text_same
second_granted = refl

first_current : Memory.is_current first_claim.0 first_lease 2000 ≡ true
unfolding Memory.acquire Memory.is_current Memory.matches Memory.lease_of get put scope text_same
first_current = refl

superseded_lease_example :
    let later = (Memory.acquire first_claim.0 acme (text "agent:a") (text "op-2") 30001000).0 in
    (1 < 2)
    × (Memory.is_current later first_lease 40000000 ≡ false)
    × (Memory.heartbeat later first_lease 40000000 ≡ (later, false))
    × (Memory.release later first_lease 40000000 ≡ (later, false))
superseded_lease_example =
    superseded_lease empty acme (text "agent:a") (text "op-1") 1000 {first = first_lease}
      first_granted at_start (text "op-2") 30001000 {second = second_lease} second_granted at_start
      40000000

acquire_busy_example :
    Memory.acquire first_claim.0 acme (text "agent:a") (text "op-2") 2000 ≡ (first_claim.0, none)
acquire_busy_example = acquire_busy first_claim.0 first_lease (text "op-2") 2000 first_current

second_refused : (Memory.acquire first_claim.0 acme (text "agent:a") (text "op-2") 2000).1 ≡ none
second_refused = ap (λ r. r.1) acquire_busy_example

abbrev worker : Worker
worker = record { owner_id = text "local-1"; lease_seconds = 30 }

abbrev rows : Table Key OwnerRow
rows = dict_table

empty_agree : Agrees rows empty []
unfolding get
empty_agree key = refl

acquire_agree_example :
    let pg = Postgres.acquire rows worker [] acme (text "agent:a") (text "op-1") 1000 in
    (pg.1 ≡ returned first_claim.1) × Agrees rows first_claim.0 pg.0
acquire_agree_example =
    acquire_agree rows empty worker [] acme (text "agent:a") (text "op-1") 1000 refl refl
      empty_agree

abbrev claimed_rows : Dict Key OwnerRow
claimed_rows = (Postgres.acquire rows worker [] acme (text "agent:a") (text "op-1") 1000).0
