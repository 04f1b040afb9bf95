-- ===== src/Repository/Rows.antt =====
-- repositories.py and tables.py: the rows of the agents and of their versions.
use open_simple_agent.Base.Dict.{put}
use open_simple_agent.Base.{
  Bool, List, Option, [], if◌then◌else◌, ltb, not, or_default, ℕ, ◌&&◌, ◌||◌, ◌∷◌, ◌≡◌,
}
use open_simple_agent.Base.Clock.{Time}
use open_simple_agent.Base.Dict.{Dict, values}
use open_simple_agent.Base.Lists.{any, filter}
use open_simple_agent.Base.Same.{nat_eq, option_eq, pair_eq, ◌==◌}
use open_simple_agent.Base.Text.{Text, text, text_eq}
use open_simple_agent.Catalog.{AgentCatalogError, AgentRecordStatus}

-- What pydantic and the driver do with a definition: it is dumped to JSON and read back. `show` is
-- `str` of an integer.
pub record Wire (D : Type 0) : Type 1 where
  pub Json : Type 0
  pub dump : D → Json
  pub load : Json → D
  pub load-dump : (d : D) → load (dump d) ≡ d
  pub show : ℕ → Text

-- `agents_table`
pub record AgentRow (J : Type 0) : Type 0 where
  pub agent_id : Text
  pub name : Text
  pub description : Text
  pub status : AgentRecordStatus
  pub current_version : Text
  pub runtime : Text
  pub endpoint : Option Text
  pub tenant_id : Option Text
  pub definition : Option J
  pub skills : List Text
  pub labels : Dict Text Text
  pub created_at : Time
  pub updated_at : Time

-- `agent_versions_table`
pub record VersionRow (J : Type 0) : Type 0 where
  pub id : ℕ
  pub agent_id : Text
  pub version : Text
  pub definition : Option J
  pub change_summary : Text
  pub created_by : Text
  pub created_at : Time

pub record Database (J : Type 0) : Type 0 where
  pub agents : Dict Text (AgentRow J)
  pub versions : List (VersionRow J)
  pub next_id : ℕ

-- an error of the catalog, an `IntegrityError` that is not one of its cases, or an `AssertionError`
pub data RepositoryError : Type 0 where
  catalog_error : AgentCatalogError → RepositoryError
  integrity_violated : RepositoryError
  assertion_failed : RepositoryError

-- the columns of `_UPDATABLE_COLUMNS`, with the value that the caller gives for one
pub data ColumnChange (J : Type 0) : Type 0 where
  set_name set_description set_runtime : Text → ColumnChange J
  set_labels : Dict Text Text → ColumnChange J
  set_definition : Option J → ColumnChange J
  set_skills : List Text → ColumnChange J
  set_endpoint : Option Text → ColumnChange J

module _ {J : Type 0} where
  abbrev pub set_column : AgentRow J → ColumnChange J → AgentRow J
  set_column r (set_name value) = record r { name = value }
  set_column r (set_description value) = record r { description = value }
  set_column r (set_runtime value) = record r { runtime = value }
  set_column r (set_labels value) = record r { labels = value }
  set_column r (set_definition value) = record r { definition = value }
  set_column r (set_skills value) = record r { skills = value }
  set_column r (set_endpoint value) = record r { endpoint = value }

  abbrev pub set_columns : AgentRow J → List (ColumnChange J) → AgentRow J
  set_columns r [] = r
  set_columns r (change ∷ changes) = set_columns (set_column r change) changes

  -- the unique index over `coalesce(tenant_id, '')` and `name`
  abbrev pub same_name : AgentRow J → AgentRow J → Bool
  same_name a b =
      a.name == b.name && or_default a.tenant_id (text "") == or_default b.tenant_id (text "")

  -- another row has the name of `r`
  abbrev pub is_taken : Dict Text (AgentRow J) → AgentRow J → Bool
  is_taken rows r = any (λ q. not (q.agent_id == r.agent_id) && same_name q r) (values rows)

  -- `ORDER BY created_at ASC, id ASC`
  abbrev pub is_older : VersionRow J → VersionRow J → Bool
  is_older a b = ltb a.created_at b.created_at || (a.created_at == b.created_at && ltb a.id b.id)

  abbrev pub insert_version : VersionRow J → List (VersionRow J) → List (VersionRow J)
  insert_version r [] = r ∷ []
  insert_version r (q ∷ qs) = if is_older q r then q ∷ insert_version r qs else r ∷ q ∷ qs

  abbrev pub in_order : List (VersionRow J) → List (VersionRow J)
  in_order [] = []
  in_order (r ∷ rs) = insert_version r (in_order rs)

  abbrev pub versions_of : Database J → Text → List (VersionRow J)
  versions_of db agent_id = filter (λ v. v.agent_id == agent_id) db.versions

  abbrev pub save_row : Database J → Text → AgentRow J → Database J
  save_row db agent_id r = record db { agents = put db.agents agent_id r }
