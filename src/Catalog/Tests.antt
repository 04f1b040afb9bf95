-- ===== src/Catalog/Tests.antt =====
-- Concrete runs of the agent catalog, and the theorems at concrete inputs.
use open_simple_agent.Base.Dict.{get}
use open_simple_agent.Base.{none, some}
use open_simple_agent.Catalog.{draft, active, archived, may_become}
use open_simple_agent.Catalog.Records.{
  create, update, transition, add_version, update_found, transition_found, add_version_found,
  get_by_name, set_field,
}
use open_simple_agent.Catalog.Lifecycle.{at_start, after, transitions}
use open_simple_agent.Base.{List, [], false, refl, true, ℕ, ◌++◌, ◌∷◌, ◌≡◌}
use open_simple_agent.Base.Result.{raised, returned}
use open_simple_agent.Base.Same.{nat_eq, option_eq, pair_eq}
use open_simple_agent.Base.Text.{text, text_eq, text_same}
use open_simple_agent.Catalog.{AgentRecord, AgentVersion, duplicate_agent}
use open_simple_agent.Catalog.Lifecycle.{archived_final, is_retired}
use open_simple_agent.Catalog.Names.{create-get_by_name}
use open_simple_agent.Catalog.Records.{Catalog, FieldChange, set_current_version}
use open_simple_agent.Catalog.Versions.{AllDistinct, add_version-AllDistinct, has_version}

-- definitions of agents are numbers here
abbrev greeter : AgentRecord ℕ
greeter = record {
  agent_id = text "1";
  name = text "greeter";
  description = text "";
  status = draft;
  definition = some 7;
  versions = [];
  current_version = text "1.0.0";
  skills = [];
  runtime = text "adk";
  endpoint = none;
  agent_type = text "managed";
  tenant_id = none;
  labels = [];
  created_at = 0;
  updated_at = 0;
}

abbrev greeters : Catalog ℕ
greeters = (text "1", greeter) ∷ []

abbrev retired : AgentRecord ℕ
retired = record greeter { status = archived; updated_at = 5 }

created : (create [] greeter).1 ≡ returned greeter
unfolding create
created = refl

create-get_by_name_example :
    (get_by_name (create [] greeter).0 (text "greeter") none ≡ some greeter)
    × ((s : AgentRecord ℕ)
        → s.name ≡ text "greeter"
        → s.tenant_id ≡ none
        → create (create [] greeter).0 s ≡ ((create [] greeter).0, raised (duplicate_agent s.name)))
create-get_by_name_example = create-get_by_name [] greeter {stored = greeter} created

archiving : (transition greeters (text "1") archived 5).1 ≡ returned retired
unfolding transition transition_found update update_found set_field may_become get text_same
archiving = refl

abbrev retirees : Catalog ℕ
retirees = (text "1", retired) ∷ []

archived_final_example :
    is_retired (get (transition retirees (text "1") active 9).0 (text "1")) ≡ true
unfolding get text_same
archived_final_example =
    archived_final (text "1") {c = retirees}
      (after at_start (transitions retirees (text "1") active 9)) refl

abbrev second_version : AgentVersion ℕ
second_version = record {
  version_id = text "v";
  version = text "2.0.0";
  definition = none;
  created_at = 3;
  created_by = text "";
  change_summary = text "";
}

abbrev stored_version : AgentVersion ℕ
stored_version = record second_version { definition = some 7 }

versioned_once : (add_version greeters (text "1") second_version 4).1 ≡ returned stored_version
unfolding add_version add_version_found get text_same
versioned_once = refl

add_version-AllDistinct_example :
    (r r' : AgentRecord ℕ) × (get greeters (text "1") ≡ some r)
    × (get (add_version greeters (text "1") second_version 4).0 (text "1") ≡ some r')
    × (has_version (text "2.0.0") r.versions ≡ false)
    × (r'.versions ≡ r.versions ++ (stored_version ∷ []))
    × (r'.current_version ≡ text "2.0.0")
    × (r'.definition ≡ some 7)
    × (AllDistinct r.versions → AllDistinct r'.versions)
add_version-AllDistinct_example =
    add_version-AllDistinct greeters (text "1") second_version 4 {stored = stored_version}
      versioned_once

abbrev bumped : AgentRecord ℕ
bumped = record greeter { current_version = text "1.0.1"; updated_at = 6 }

abbrev bump : List (FieldChange ℕ)
bump = set_current_version (text "1.0.1") ∷ []

bumping : (update greeters (text "1") (some (text "1.0.0")) bump 6).1 ≡ returned bumped
unfolding update update_found set_field get text_same
bumping = refl
