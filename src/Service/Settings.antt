-- ===== src/Service/Settings.antt =====
-- deployment_service.py: what the environment configures. `str.lower` of a name is given for ASCII
-- letters. `str.format` and the port that the system picks are parameters.
use open_simple_agent.Base.{Bool-cases, ◌∙◌, ap, sym, arith, refl, false}
use open_simple_agent.Base.Dict.{Dict, put}
use open_simple_agent.Base.Text.{text_same, text_same_iff}
use open_simple_agent.Base.Result.{◌>>=◌}
use open_simple_agent.Base.Int.{ℤ, pos, negsuc, parse_int, strip}
use open_simple_agent.Base.{
  Bool, Option, [], if◌then◌else◌, inl, inr, leb, ltb, none, not, or_default, refl, some, sym, true,
  ℕ, ◌&&◌, ◌+◌, ◌||◌, ◌∷◌, ◌≡◌, ◌≢◌, ◌≤◌, ◌⊎◌,
}
use open_simple_agent.Base.Result.{Result, raised, returned}
use open_simple_agent.Base.Same.{nat_eq, option_eq, pair_eq, ◌==◌}
use open_simple_agent.Base.Text.{Text, is_empty, text, text_eq}
use open_simple_agent.Service.{
  ServiceError, bad_number, bad_port, image_required, shared_needs_cluster, unsupported_provider,
}

-- the provider that is chosen, with the arguments of its constructor
pub data ProviderChoice : Type 0 where
  local_processes : ProviderChoice
  kubernetes_cluster :
      (image namespace : Text) (replicas : ℕ) (kubectl : Text) (rollout_timeout : ℕ)
      → ProviderChoice
  openshift_cluster :
      (image namespace : Text) (replicas : ℕ) (oc : Text) (rollout_timeout : ℕ)
      (route_host tls_termination : Option Text) (insecure_edge_policy : Text)
      → ProviderChoice

-- `os.environ.get(name, default)`
abbrev pub env_or : (Text → Option Text) → Text → Text → Text
env_or env name default = or_default (env name) default

-- `value or None`
abbrev pub nonempty : Text → Option Text
nonempty [] = none
nonempty (c ∷ s) = some (c ∷ s)

-- `s.lower()`
abbrev pub lower : Text → Text
lower [] = []
lower (c ∷ s) = (if leb 65 c && leb c 90 then c + 32 else c) ∷ lower s

abbrev pub positive_parsed : Option ℤ → Result ServiceError ℕ
positive_parsed none = raised bad_number
positive_parsed (some (negsuc n)) = raised bad_number
positive_parsed (some (pos n)) = if ltb n 1 then raised bad_number else returned n

-- the first argument is the variable's value
unfoldable pub positive_env_int : Option Text → ℕ → Result ServiceError ℕ
positive_env_int none default = returned default
positive_env_int (some raw) default = positive_parsed (parse_int raw)

unfoldable pub create_kubernetes : (Text → Option Text) → Result ServiceError ProviderChoice
create_kubernetes env = do
  let image = strip (env_or env (text "OSA_KUBERNETES_IMAGE") [])
  image ← if is_empty image then raised image_required else returned image
  replicas ← positive_env_int (env (text "OSA_KUBERNETES_REPLICAS")) 1
  timeout ← positive_env_int (env (text "OSA_KUBERNETES_ROLLOUT_TIMEOUT_SECONDS")) 60
  returned (
      kubernetes_cluster image (env_or env (text "OSA_KUBERNETES_NAMESPACE") (text "default"))
        replicas (env_or env (text "OSA_KUBECTL") (text "kubectl")) timeout)

unfoldable pub create_openshift : (Text → Option Text) → Result ServiceError ProviderChoice
create_openshift env = do
  let image = strip (env_or env (text "OSA_OPENSHIFT_IMAGE") [])
  image ← if is_empty image then raised image_required else returned image
  replicas ← positive_env_int (env (text "OSA_OPENSHIFT_REPLICAS")) 1
  timeout ← positive_env_int (env (text "OSA_OPENSHIFT_ROLLOUT_TIMEOUT_SECONDS")) 60
  returned (
      openshift_cluster image (env_or env (text "OSA_OPENSHIFT_NAMESPACE") (text "default"))
        replicas (env_or env (text "OSA_OC") (text "oc")) timeout
        (nonempty (env_or env (text "OSA_OPENSHIFT_ROUTE_HOST") []))
        (nonempty (env_or env (text "OSA_OPENSHIFT_ROUTE_TLS_TERMINATION") (text "edge")))
        (env_or env (text "OSA_OPENSHIFT_ROUTE_INSECURE_EDGE_POLICY") (text "Redirect")))

abbrev pub is_cluster : Text → Bool
is_cluster name = name == text "kubernetes" || name == text "openshift"

unfoldable pub create_named :
    Bool → Text → (Text → Option Text) → Result ServiceError ProviderChoice
create_named require_shared name env =
    if require_shared && not (is_cluster name)
    then raised shared_needs_cluster
    else if name == text "local"
    then returned local_processes
    else if name == text "kubernetes"
    then create_kubernetes env
    else if name == text "openshift"
    then create_openshift env
    else raised (unsupported_provider name)

unfoldable pub create_deployment_provider :
    (require_shared : Bool) → (Text → Option Text) → Result ServiceError ProviderChoice
create_deployment_provider require_shared env =
    create_named require_shared
      (lower (strip (env_or env (text "OSA_DEPLOY_PROVIDER") (text "local")))) env

abbrev pub check_port : Option ℤ → Result ServiceError ℕ
check_port none = raised bad_port
check_port (some (negsuc n)) = raised bad_port
check_port (some (pos n)) = if leb 1024 n && leb n 65535 then returned n else raised bad_port

-- `configured` is the stripped value of `OSA_DEPLOY_PORT`, or the empty text
abbrev pub port_from : Text → ℕ → Result ServiceError ℕ
port_from [] free_port = returned free_port
port_from (c ∷ s) free_port = check_port (parse_int (c ∷ s))

unfoldable pub deployment_port : (Text → Option Text) → ℕ → Result ServiceError ℕ
deployment_port env free_port = port_from (strip (env_or env (text "OSA_DEPLOY_PORT") [])) free_port

abbrev pub default_command_template : Text
default_command_template = text "osa-runtime --config {bundle_path} --port {port}"

unfoldable pub command_template : (Text → Option Text) → Text
command_template env = env_or env (text "OSA_DEPLOY_COMMAND_TEMPLATE") default_command_template

-- `fill(template) if template else None`
abbrev pub url_from : (Text → Text) → Text → Option Text
url_from fill [] = none
url_from fill (c ∷ s) = some (fill (c ∷ s))

-- `format` is `str.format` with the four values
unfoldable pub public_invoke_url :
    (Text → Option Text)
    → (Text → Text → Text → Text → ℕ → Text)
    → Text
    → Text
    → Text
    → ℕ
    → Option Text
public_invoke_url env format deployment_id agent_id version port =
    url_from (λ template. format template deployment_id agent_id version port)
      (env_or env (text "OSA_DEPLOY_INVOKE_URL_TEMPLATE") [])

-- `if value: env[name] = value`
abbrev pub put_nonempty : Dict Text Text → Text → Text → Dict Text Text
put_nonempty d name [] = d
put_nonempty d name (c ∷ s) = put d name (c ∷ s)

unfoldable pub runtime_env : (Text → Option Text) → Dict Text Text
runtime_env env =
    let first : Dict Text Text =
      (text "OSA_ALLOW_FAKE_PROVIDER", env_or env (text "OSA_ALLOW_FAKE_PROVIDER") (text "0"))
      ∷ [] in
    let second =
      put_nonempty first (text "OSA_FAKE_PROVIDER_RESPONSE")
        (strip (env_or env (text "OSA_FAKE_PROVIDER_RESPONSE") [])) in
    put_nonempty second (text "OSA_RUNTIME_ALLOWED_ORIGINS")
      (env_or env (text "OSA_DEPLOY_RUNTIME_ALLOWED_ORIGINS") [])

-- what the text of a port in the range stands for
abbrev pub StandsFor : ℕ → Option ℤ → Type 0
StandsFor n parsed = (parsed ≡ some (pos n)) × ((1024 ≤ n) × (n ≤ 65535))

check_port_cases :
    (parsed : Option ℤ)
    → ((n : ℕ) × ((check_port parsed ≡ returned n) × StandsFor n parsed))
      ⊎ ((check_port parsed ≡ raised bad_port) × ((n : ℕ) → StandsFor n parsed → ⊥))
check_port_cases none = inr (refl, λ n h. cc (h.0))
check_port_cases (some (negsuc m)) = inr (refl, λ n h. cc (h.0))
check_port_cases (some (pos m)) = elim (Bool-cases (leb 1024 m && leb m 65535)) [
  | inl fits ↦ inl (m, (rw fits refl, (refl, (ground arith, ground arith))))
  | inr outside ↦ inr (rw outside refl, λ n h. let one : m ≡ n = cc (h.0) in absurd (ground arith))
]

-- A blank `OSA_DEPLOY_PORT` leaves the port to the system. A text that stands for a number from 1024
-- to 65535 gives that port, and any other text is an error.
pub port_from_cases :
    (env : Text → Option Text) (free_port : ℕ)
    → let configured = strip (env_or env (text "OSA_DEPLOY_PORT") []) in
      ((configured ≡ []) × (deployment_port env free_port ≡ returned free_port))
      ⊎ ((configured ≢ [])
          × ((n : ℕ) × ((deployment_port env free_port ≡ returned n)
                × StandsFor n (parse_int configured))))
      ⊎ ((configured ≢ [])
          × (deployment_port env free_port ≡ raised bad_port)
          × ((n : ℕ) → StandsFor n (parse_int configured) → ⊥))
unfolding deployment_port
port_from_cases env free_port = go (strip (env_or env (text "OSA_DEPLOY_PORT") []))
  where
    go :
        (configured : Text)
        → ((configured ≡ []) × (port_from configured free_port ≡ returned free_port))
          ⊎ ((configured ≢ [])
              × ((n : ℕ) × ((port_from configured free_port ≡ returned n)
                    × StandsFor n (parse_int configured))))
          ⊎ ((configured ≢ [])
              × (port_from configured free_port ≡ raised bad_port)
              × ((n : ℕ) → StandsFor n (parse_int configured) → ⊥))
    go [] = inl (refl, refl)
    go (c ∷ s) = elim (check_port_cases (parse_int (c ∷ s))) [
      | inl given ↦ inr (inl (λ e. cc (e), given))
      | inr refused ↦ inr (inr (λ e. cc (e), refused.0, refused.1))
    ]

kubernetes_not_local :
    (env : Text → Option Text) → create_kubernetes env ≡ returned local_processes → ⊥
unfolding create_kubernetes
kubernetes_not_local env h = ground arith

openshift_not_local :
    (env : Text → Option Text) → create_openshift env ≡ returned local_processes → ⊥
unfolding create_openshift
openshift_not_local env h = ground arith

local_alone : is_cluster (text "local") ≡ false
unfolding text_same
local_alone = refl

named_not_local :
    (name : Text) (env : Text → Option Text)
    → create_named true name env ≡ returned local_processes
    → ⊥
unfolding create_named
named_not_local name env h = elim (Bool-cases (is_cluster name)) [
  | inr not_it ↦ absurd (ground arith)
  | inl yes_it_is ↦ elim (Bool-cases (name == text "local")) [
    | inl here ↦
        let same : name ≡ text "local" = (text_same_iff name (text "local")).0 here in
        let clash : true ≡ false = sym yes_it_is ∙ ap is_cluster same ∙ local_alone in absurd (cc)
    | inr away ↦ elim (Bool-cases (name == text "kubernetes")) [
      | inl k ↦ kubernetes_not_local env (rw (yes_it_is, away, k) at h)
      | inr nk ↦ openshift_not_local env (ground arith)
    ]
  ]
]

-- Where a shared provider is required, the provider that is created is not the local one.
pub shared_not_local :
    (env : Text → Option Text) {choice : ProviderChoice}
    → create_deployment_provider true env ≡ returned choice
    → choice ≢ local_processes
unfolding create_deployment_provider
shared_not_local env {choice} h same = named_not_local _ env (h ∙ ap returned same)
