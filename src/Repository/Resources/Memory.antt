-- ===== src/Repository/Resources/Memory.antt =====
-- repositories.py: `InMemoryResourceDefinitionRepository`.
use open_simple_agent.Base.Dict
use open_simple_agent.Base.Dict.{put, erase}
use open_simple_agent.Lease.{scope}
use open_simple_agent.Repository.Resources.{ResourceKey, Item, resource_key, tenant_of}
use open_simple_agent.Base.{Bool, List, Option, [], if◌then◌else◌, is_some, ◌&&◌, ◌∷◌}
use open_simple_agent.Base.Dict.{Dict}
use open_simple_agent.Base.Same.{nat_eq, option_eq, pair_eq, ◌==◌}
use open_simple_agent.Base.Text.{Text, text_eq}

abbrev pub Items : Type 0 → Type 0
Items S = Dict ResourceKey S

module _ {S : Type 0} where
  unfoldable pub upsert : Items S → Text → Text → S → Option Text → Items S
  upsert items kind name spec tenant_id = put items (resource_key tenant_id kind name) spec

  unfoldable pub upsert_many : Items S → List (Item S) → Option Text → Items S
  upsert_many items [] tenant_id = items
  upsert_many items ((kind, (name, spec)) ∷ rest) tenant_id =
      upsert_many (put items (resource_key tenant_id kind name) spec) rest tenant_id

  unfoldable pub get : Items S → Text → Text → Option Text → Option S
  get items kind name tenant_id = Dict.get items (resource_key tenant_id kind name)

  unfoldable pub list_in : Items S → Text → Text → Dict Text S
  list_in [] tenant kind = []
  list_in (((item_scope, (k, name)), spec) ∷ items) tenant kind =
      if item_scope == tenant && k == kind
      then (name, spec) ∷ list_in items tenant kind
      else list_in items tenant kind

  unfoldable pub list : Items S → Text → Option Text → Dict Text S
  list items kind tenant_id = list_in items (scope tenant_id) kind

  unfoldable pub list_all : Items S → Text → List (Option Text × S)
  list_all [] kind = []
  list_all (((item_scope, (k, name)), spec) ∷ items) kind =
      if k == kind then (tenant_of item_scope, spec) ∷ list_all items kind else list_all items kind

  unfoldable pub delete : Items S → Text → Text → Option Text → Items S × Bool
  delete items kind name tenant_id = (
    erase items (resource_key tenant_id kind name),
    is_some (Dict.get items (resource_key tenant_id kind name)),
  )
