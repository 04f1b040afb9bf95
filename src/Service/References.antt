-- ===== src/Service/References.antt =====
-- deployment_service.py, `_export_bundle`: the resources that a bundle needs, and the files of its
-- directory. What YAML and SHA-256 make of a definition or a name is a parameter. Not modelled: errors
-- of the file system, and `contained`, which refuses no path here, since each is made of a UUID, fixed
-- words and digests.
use open_simple_agent.Base.Dict.{put}
use open_simple_agent.Base.Result.{◌>>=◌}
use open_simple_agent.Service.Interfaces.{AgentDefinition}
use open_simple_agent.Service.{ResourceKind, ServiceError, missing_reference}
use open_simple_agent.Base.{
  Bool, Bool-cases, List, Option, [], arith, false, if◌then◌else◌, inl, inr, ltb, none, refl, some,
  true, ◌&&◌, ◌||◌, ◌∙◌, ◌∷◌, ◌≡◌,
}
use open_simple_agent.Base.Lists.{any}
use open_simple_agent.Base.Result.{Result, raised, returned}
use open_simple_agent.Base.Same.{nat_eq, option_eq, pair_eq, ◌==◌}
use open_simple_agent.Base.Text.{Text, text_eq, text_same_iff}
use open_simple_agent.Base.Dict.{Dict}
use open_simple_agent.Base.Text.{text}

-- `{ref}` or the empty set, for an optional reference
abbrev pub option_names : Option Text → List Text
option_names none = []
option_names (some name) = name ∷ []

-- `{policy} if enabled and policy else set()`
abbrev pub policy_names : Bool → Option Text → List Text
policy_names true (some (c ∷ s)) = (c ∷ s) ∷ []
policy_names _ _ = []

unfoldable pub wanted : AgentDefinition → ResourceKind → List Text
wanted d ResourceKind.models = option_names d.model
wanted d ResourceKind.tools = d.tools
wanted d ResourceKind.skills = d.skills
wanted d ResourceKind.mcps = d.mcps
wanted d ResourceKind.memory_policies = policy_names d.memory_enabled d.memory_policy

-- `a < b` for texts
abbrev pub text_before : Text → Text → Bool
text_before s [] = false
text_before [] (b ∷ t) = true
text_before (a ∷ s) (b ∷ t) = ltb a b || (a == b && text_before s t)

-- into an ascending list without repetition
unfoldable pub insert_name : Text → List Text → List Text
insert_name name [] = name ∷ []
insert_name name (n ∷ ns) =
    if name == n
    then n ∷ ns
    else if text_before name n
    then name ∷ n ∷ ns
    else n ∷ insert_name name ns

-- `sorted(set(names))`
unfoldable pub sorted_names : List Text → List Text
sorted_names [] = []
sorted_names (n ∷ ns) = insert_name n (sorted_names ns)

abbrev pub exporters : List ResourceKind
exporters =
    ResourceKind.models ∷ ResourceKind.tools ∷ ResourceKind.skills ∷ ResourceKind.mcps
    ∷ ResourceKind.memory_policies ∷ []

abbrev pub directory : ResourceKind → Text
directory ResourceKind.models = text "models"
directory ResourceKind.tools = text "tools"
directory ResourceKind.skills = text "skills"
directory ResourceKind.mcps = text "mcps"
directory ResourceKind.memory_policies = text "memory-policies"

-- What writes the files: `yaml.safe_dump` of the agent's definition, of the bundle's name and version,
-- and of a resource, and the file name that `hashlib.sha256` gives a resource's name.
pub record BundleWriter : Type 0 where
  pub agent_yaml : AgentDefinition → Text
  pub bundle_yaml : (name version : Text) → Text
  pub resource_yaml : ResourceKind → Text → Text
  pub file_name : Text → Text

-- a file's directory and name, and what is in it; the root of the bundle is the empty text
abbrev pub Files : Type 0
Files = Dict (Text × Text) Text

abbrev pub resource_path : BundleWriter → ResourceKind → Text → Text × Text
resource_path b kind name = (directory kind, b.file_name name)

-- the loop over the names of one kind: the first that the catalogs lack is an error
unfoldable pub export_names :
    BundleWriter
    → (Text → Option Text)
    → ResourceKind
    → List Text
    → Files
    → Result ServiceError Files
export_names b lookup kind [] files = returned files
export_names b lookup kind (n ∷ ns) files = elim (lookup n) [
  | none ↦ raised (missing_reference kind n)
  | some spec ↦
      export_names b lookup kind ns (put files (resource_path b kind n) (b.resource_yaml kind spec))
]

unfoldable pub export_kinds :
    BundleWriter
    → (ResourceKind → Text → Option Text)
    → AgentDefinition
    → List ResourceKind
    → Files
    → Result ServiceError Files
export_kinds b lookup d [] files = returned files
export_kinds b lookup d (kind ∷ kinds) files =
    export_names b (lookup kind) kind (sorted_names (wanted d kind)) files >>= λ written.
    export_kinds b lookup d kinds written

-- `agent.yaml` and `bundle.yaml`
abbrev pub root_files : BundleWriter → AgentDefinition → Text → Text → Files
root_files b d name version =
    put (put [] ([], text "agent.yaml") (b.agent_yaml d)) ([], text "bundle.yaml")
      (b.bundle_yaml name version)

-- `version or record.current_version or "draft"`
abbrev pub bundle_version : Option Text → Text → Text
bundle_version (some (c ∷ s)) current = c ∷ s
bundle_version _ (c ∷ s) = c ∷ s
bundle_version _ [] = text "draft"

-- `lookup kind name` is what `_catalogs_has` and `_catalogs_get` find on the tenant's catalogs. The
-- result is what the directory of the bundle has when it takes its final name; after an error the
-- directory is removed.
unfoldable pub export_bundle :
    BundleWriter
    → (ResourceKind → Text → Option Text)
    → AgentDefinition
    → (name version : Text) → Result ServiceError Files
export_bundle b lookup d name version =
    export_kinds b lookup d exporters (root_files b d name version)

insert_name-any :
    (test : Text → Bool) (name : Text) (ns : List Text)
    → any test (insert_name name ns) ≡ (test name || any test ns)
unfolding insert_name
insert_name-any test name [] = refl
insert_name-any test name (n ∷ ns) = elim (Bool-cases (name == n)) [
  | inl same ↦ let one : name ≡ n = (text_same_iff name n).0 same in rw (same, one) (ground arith)
  | inr other ↦ rw other (ground (arith, insert_name-any test name ns))
]

-- Sorting keeps what is in a list.
pub sorted_names-any :
    (test : Text → Bool) (ns : List Text) → any test (sorted_names ns) ≡ any test ns
unfolding sorted_names
sorted_names-any test [] = refl
sorted_names-any test (n ∷ ns) =
    insert_name-any test n (sorted_names ns) ∙ rw (sorted_names-any test ns) refl
