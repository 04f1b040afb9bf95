-- ===== src/Auth/Viewers.antt =====
-- What a role that only reads can do.
use open_simple_agent.Auth.{AuthPermission, permission_for, is_granted}
use open_simple_agent.Base.Dict.{get}
use open_simple_agent.Auth.{
  AuthenticatedPrincipal, agent_invoke, agent_read, agent_write, audit_read, deployment_read,
  deployment_write, external_agent_read, external_agent_write, permission_text, resource_read,
  resource_write,
}
use open_simple_agent.Base.{
  Bool, Bool-cases, Option, [], arith, false, inl, inr, none, not, refl, some, true, ◌∷◌, ◌≡◌,
}
use open_simple_agent.Base.Same.{nat_eq, option_eq, pair_eq, ◌==◌}
use open_simple_agent.Base.Text.{Text, text, text_eq, text_same}

abbrev pub viewer : AuthenticatedPrincipal
viewer = record { roles = text "viewer" ∷ []; permissions = []; scopes = [] }

abbrev pub viewer_may : AuthPermission → Bool
viewer_may agent_read = true
viewer_may resource_read = true
viewer_may deployment_read = true
viewer_may external_agent_read = true
viewer_may _ = false

viewer_granted :
    (p : AuthPermission) → is_granted (λ s. s) viewer (permission_text p) ≡ viewer_may p
unfolding is_granted get text_same
viewer_granted agent_invoke = refl
viewer_granted agent_read = refl
viewer_granted agent_write = refl
viewer_granted resource_read = refl
viewer_granted resource_write = refl
viewer_granted deployment_read = refl
viewer_granted deployment_write = refl
viewer_granted external_agent_read = refl
viewer_granted external_agent_write = refl
viewer_granted audit_read = refl

-- no permission, or one that a viewer lacks
abbrev refused : Option AuthPermission → Bool
refused none = true
refused (some p) = not (viewer_may p)

permission_refused :
    (path method : Text)
    → (method == text "GET") ≡ false
    → refused (permission_for path method) ≡ true
unfolding permission_for
permission_refused path method h = ground arith

-- Where a request needs a permission that the role `viewer` alone gives, its method is `GET`.
pub viewer_only_reads :
    (path method : Text) {p : AuthPermission}
    → permission_for path method ≡ some p
    → is_granted (λ s. s) viewer (permission_text p) ≡ true
    → (method == text "GET") ≡ true
viewer_only_reads path method {p} needs granted = elim (Bool-cases (method == text "GET")) [
  | inl reading ↦ reading
  | inr writing ↦
      let lacks = permission_refused path method writing in
      absurd (ground (arith, viewer_granted p, (rw needs at lacks)))
]
