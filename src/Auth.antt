-- ===== src/Auth.antt =====
-- generic-agent/src/osa/generic_agent/auth.py: `AuthorizationPolicy`, which permission a route
-- needs and who has it. The method of a request is given in upper case; `str.lower` is a parameter.
use open_simple_agent.Base.Dict.{get}
pub mod Viewers
mod Tests
use open_simple_agent.Base.{
  Bool, List, Option, [], if◌then◌else◌, none, or_default, some, ◌&&◌, ◌++◌, ◌-◌, ◌||◌, ◌∷◌,
}
use open_simple_agent.Base.Dict.{Dict}
use open_simple_agent.Base.Lists.{any, drop, length}
use open_simple_agent.Base.Same.{nat_eq, option_eq, pair_eq, ◌==◌}
use open_simple_agent.Base.Text.{Text, starts_with, text, text_eq, text_same}

pub record AuthenticatedPrincipal : Type 0 where
  pub roles : List Text
  pub permissions : List Text
  pub scopes : List Text

pub data AuthPermission : Type 0 where
  agent_invoke agent_read agent_write resource_read resource_write : AuthPermission
  deployment_read deployment_write external_agent_read external_agent_write : AuthPermission
  audit_read : AuthPermission

abbrev pub ends_with : Text → Text → Bool
ends_with suffix s = text_same (drop (length s - length suffix) s) suffix

-- the permission for reading, or the other
abbrev pub read_or : Text → AuthPermission → AuthPermission → AuthPermission
read_or method reading writing = if method == text "GET" then reading else writing

abbrev pub permission_text : AuthPermission → Text
permission_text agent_invoke = text "agent:invoke"
permission_text agent_read = text "agent:read"
permission_text agent_write = text "agent:write"
permission_text resource_read = text "resource:read"
permission_text resource_write = text "resource:write"
permission_text deployment_read = text "deployment:read"
permission_text deployment_write = text "deployment:write"
permission_text external_agent_read = text "external-agent:read"
permission_text external_agent_write = text "external-agent:write"
permission_text audit_read = text "audit:read"

abbrev pub texts_of : List AuthPermission → List Text
texts_of [] = []
texts_of (p ∷ ps) = permission_text p ∷ texts_of ps

-- `_ROLE_PERMISSIONS`
abbrev pub role_permissions : Dict Text (List Text)
role_permissions =
    (text "administrator", text "*" ∷ [])
    ∷ (text "admin", text "*" ∷ [])
    ∷ (
      text "operator",
      texts_of (
          agent_invoke ∷ agent_read ∷ agent_write ∷ resource_read ∷ resource_write ∷ deployment_read
          ∷ deployment_write ∷ external_agent_read ∷ external_agent_write ∷ audit_read ∷ []),
    )
    ∷ (
      text "viewer",
      texts_of (agent_read ∷ resource_read ∷ deployment_read ∷ external_agent_read ∷ []),
    )
    ∷ (text "agent", texts_of (agent_invoke ∷ []))
    ∷ (text "caller", texts_of (agent_invoke ∷ []))
    ∷ (text "user", texts_of (agent_invoke ∷ []))
    ∷ (text "service", texts_of (agent_invoke ∷ resource_read ∷ []))
    ∷ []

-- `permission_for_request`, on the method in upper case
unfoldable pub permission_for : Text → Text → Option AuthPermission
permission_for path method =
    let invoke = ends_with (text "/invoke") path && method == text "POST" in
    if (path == text "/v1/invoke" || path == text "/v1/invoke/stream") && method == text "POST"
    then some agent_invoke
    else if path == text "/v1/capabilities" && method == text "GET"
    then some agent_read
    else if starts_with (text "/a2a") path && method == text "POST"
    then some agent_invoke
    else if path == text "/templates" && method == text "GET"
    then some resource_read
    else if starts_with (text "/resources/") path
    then some (read_or method resource_read resource_write)
    else if starts_with (text "/deployments/") path || ends_with (text "/deploy") path
    then some (read_or method deployment_read deployment_write)
    else if ends_with (text "/deployments") path
    then some (read_or method deployment_read deployment_write)
    else if starts_with (text "/external-agents") path
    then (if invoke
        then some agent_invoke
        else some (read_or method external_agent_read external_agent_write))
    else if path == text "/audit-events" && method == text "GET"
    then some audit_read
    else if path == text "/agents" || starts_with (text "/agents/") path
    then some (read_or method agent_read agent_write)
    else none

-- the permissions of the roles
abbrev pub granted_by : (lower : Text → Text) → List Text → List Text
granted_by lower [] = []
granted_by lower (role ∷ roles) =
    or_default (get role_permissions (lower role)) [] ++ granted_by lower roles

-- whether `require` returns
unfoldable pub is_granted : (lower : Text → Text) → AuthenticatedPrincipal → Text → Bool
is_granted lower p permission =
    let granted = p.permissions ++ p.scopes ++ granted_by lower p.roles in
    any (λ g. g == text "*") granted || any (λ g. g == permission) granted
