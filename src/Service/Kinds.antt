-- ===== src/Service/Kinds.antt =====
-- The kinds of resources and their directories in a bundle.
use open_simple_agent.Service.{ResourceKind}
use open_simple_agent.Service.References.{directory}
use open_simple_agent.Base.{[], ap, if◌then◌else◌, refl, sym, ◌∙◌, ◌≡◌, ◌≢◌}
use open_simple_agent.Base.Same.{◌==◌}
use open_simple_agent.Base.Text.{Text, text, text_eq, text_same}

-- the kind that has this directory
abbrev kind_of : Text → ResourceKind
kind_of name =
    if name == text "models"
    then ResourceKind.models
    else if name == text "tools"
    then ResourceKind.tools
    else if name == text "skills"
    then ResourceKind.skills
    else if name == text "mcps"
    then ResourceKind.mcps
    else ResourceKind.memory_policies

kind_of-directory : (kind : ResourceKind) → kind_of (directory kind) ≡ kind
unfolding text_same
kind_of-directory ResourceKind.models = refl
kind_of-directory ResourceKind.tools = refl
kind_of-directory ResourceKind.skills = refl
kind_of-directory ResourceKind.mcps = refl
kind_of-directory ResourceKind.memory_policies = refl

pub directory_inj : (kind other : ResourceKind) → directory kind ≡ directory other → kind ≡ other
directory_inj kind other e = sym (kind_of-directory kind) ∙ ap kind_of e ∙ kind_of-directory other

pub below_root : (kind : ResourceKind) → directory kind ≢ []
below_root ResourceKind.models e = cc
below_root ResourceKind.tools e = cc
below_root ResourceKind.skills e = cc
below_root ResourceKind.mcps e = cc
below_root ResourceKind.memory_policies e = cc

pub every_kind :
    (Goal : ResourceKind → Type 0) (kind : ResourceKind)
    → Goal ResourceKind.models
    → Goal ResourceKind.tools
    → Goal ResourceKind.skills
    → Goal ResourceKind.mcps
    → Goal ResourceKind.memory_policies
    → Goal kind
every_kind Goal ResourceKind.models m t s c p = m
every_kind Goal ResourceKind.tools m t s c p = t
every_kind Goal ResourceKind.skills m t s c p = s
every_kind Goal ResourceKind.mcps m t s c p = c
every_kind Goal ResourceKind.memory_policies m t s c p = p
