-- ===== src/Repository/Resources.antt =====
-- repositories.py: the repositories of resource definitions, in memory and in SQL, where a row is
-- unique by tenant, kind and name. The specification of a resource is a parameter.
pub mod Memory
pub mod Table
pub mod Agreement
use open_simple_agent.Lease.{scope}
use open_simple_agent.Base.{Option, [], none, some, ◌∷◌}
use open_simple_agent.Base.Text.{Text}

-- the scope of the tenant, the kind and the name
abbrev pub ResourceKey : Type 0
ResourceKey = Text × (Text × Text)

unfoldable pub resource_key : Option Text → Text → Text → ResourceKey
resource_key tenant_id kind name = (scope tenant_id, (kind, name))

-- one item of `upsert_many`: kind, name and specification
abbrev pub Item : Type 0 → Type 0
Item S = Text × (Text × S)

-- `scope or None`
abbrev pub tenant_of : Text → Option Text
tenant_of [] = none
tenant_of (c ∷ s) = some (c ∷ s)
