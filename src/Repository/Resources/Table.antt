-- ===== src/Repository/Resources/Table.antt =====
-- repositories.py: `PostgresResourceDefinitionRepository`; SQLite has the same statements. A
-- statement is one step; the rows of a query come in the order of the table here.
use mathlib.Core.List.{map}
use mathlib.Core.Option
use open_simple_agent.Lease.{scope}
use open_simple_agent.Repository.Resources.{ResourceKey, Item, resource_key, tenant_of}
use open_simple_agent.Base.{
  Bool, List, Option, [], false, if◌then◌else◌, none, not, some, ◌&&◌, ◌||◌, ◌∷◌,
}
use open_simple_agent.Base.Lists.{any, filter}
use open_simple_agent.Base.Same.{nat_eq, option_eq, pair_eq, ◌==◌}
use open_simple_agent.Base.Text.{Text, text_eq}
use open_simple_agent.Base.{◌≡◌}

-- `resource_definitions_table`, without the columns that no query reads
pub record ResourceRow (J : Type 0) : Type 0 where
  pub tenant_id : Text
  pub kind : Text
  pub name : Text
  pub spec : J

-- the JSON column of a specification
pub record SpecJson (S : Type 0) : Type 1 where
  pub Json : Type 0
  pub dump : S → Json
  pub load : Json → S
  pub load-dump : (spec : S) → load (dump spec) ≡ spec

module _ {J : Type 0} where
  -- the columns of the unique constraint
  abbrev pub row_key : ResourceRow J → ResourceKey
  row_key row = (row.tenant_id, (row.kind, row.name))

  -- `INSERT … ON CONFLICT (tenant_id, kind, name) DO UPDATE SET spec`
  unfoldable pub upsert_row : List (ResourceRow J) → ResourceRow J → List (ResourceRow J)
  upsert_row [] new = new ∷ []
  upsert_row (row ∷ rows) new =
      if row_key row == row_key new
      then record row { spec = new.spec } ∷ rows
      else row ∷ upsert_row rows new

  unfoldable pub find_spec : List (ResourceRow J) → ResourceKey → Option J
  find_spec [] key = none
  find_spec (row ∷ rows) key = if row_key row == key then some row.spec else find_spec rows key

  -- the rows that are left, and whether any was deleted
  unfoldable pub delete :
      List (ResourceRow J) → Text → Text → Option Text → List (ResourceRow J) × Bool
  delete rows kind name tenant_id =
      let key = resource_key tenant_id kind name in
      (filter (λ row. not (row_key row == key)) rows, any (λ row. row_key row == key) rows)

-- an item comes twice
unfoldable pub has_repeat : {S : Type 0} → List (Item S) → Bool
has_repeat [] = false
has_repeat {S} ((kind, (name, spec)) ∷ rest) =
    any (λ (item : Item S). item.0 == kind && item.1.0 == name) rest || has_repeat rest

module _ {S : Type 0} (W : SpecJson S) where
  unfoldable pub upsert :
      List (ResourceRow W.Json) → Text → Text → S → Option Text → List (ResourceRow W.Json)
  upsert rows kind name spec tenant_id =
      upsert_row rows
        (record { tenant_id = scope tenant_id; kind = kind; name = name; spec = W.dump spec })

  -- the statement inserts row after row
  unfoldable pub upsert_rows :
      List (ResourceRow W.Json) → List (Item S) → Option Text → List (ResourceRow W.Json)
  upsert_rows rows [] tenant_id = rows
  upsert_rows rows ((kind, (name, spec)) ∷ rest) tenant_id =
      upsert_rows (upsert rows kind name spec tenant_id) rest tenant_id

  -- `none` is the error of a database that refuses a statement which would update a row twice, as
  -- PostgreSQL does and SQLite does not
  unfoldable pub upsert_many :
      (refuses_repeats : Bool)
      → List (ResourceRow W.Json)
      → List (Item S)
      → Option Text
      → Option (List (ResourceRow W.Json))
  upsert_many refuses_repeats rows items tenant_id =
      if refuses_repeats && has_repeat items then none else some (upsert_rows rows items tenant_id)

  unfoldable pub get : List (ResourceRow W.Json) → Text → Text → Option Text → Option S
  get rows kind name tenant_id =
      Option.map W.load (find_spec rows (resource_key tenant_id kind name))

  unfoldable pub list : List (ResourceRow W.Json) → Text → Option Text → List (Text × S)
  list rows kind tenant_id =
      map (λ (row : ResourceRow W.Json). (row.name, W.load row.spec))
        (filter (λ row. row.tenant_id == scope tenant_id && row.kind == kind) rows)

  unfoldable pub list_all : List (ResourceRow W.Json) → Text → List (Option Text × S)
  list_all rows kind =
      map (λ (row : ResourceRow W.Json). (tenant_of row.tenant_id, W.load row.spec))
        (filter (λ row. row.kind == kind) rows)
