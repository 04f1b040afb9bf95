-- ===== src/Catalog/Names.antt =====
-- Names in the catalog: one record for each name and tenant.
use open_simple_agent.Base.Dict.{put, values}
use open_simple_agent.Catalog.Records.{create, get_by_name, Catalog}
use open_simple_agent.Base.{Bool-cases, [], false, inl, inr, refl, some, ◌∷◌, ◌≡◌}
use open_simple_agent.Base.Lists.{any}
use open_simple_agent.Base.Result.{raised, returned}
use open_simple_agent.Base.Same.{nat_eq, option_eq, pair_eq, same_refl, ◌==◌}
use open_simple_agent.Base.Text.{text_eq}
use open_simple_agent.Catalog.{AgentRecord, duplicate_agent}
use open_simple_agent.Catalog.Records.{first_where, is_named}
use open_simple_agent.Base.{Bool, List, arith, true}

module _ {D : Type 0} where
  first_where-put :
      (c : Catalog D) (r : AgentRecord D)
      → any (is_named r.name r.tenant_id) (values c) ≡ false
      → first_where (is_named r.name r.tenant_id) (values (put c r.agent_id r)) ≡ some r
  unfolding put
  first_where-put [] r h = rw (same_refl r.name, same_refl r.tenant_id) refl
  first_where-put ((j, old) ∷ c) r h = elim (Bool-cases (j == r.agent_id)) [
    | inl same ↦ rw (same, same_refl r.name, same_refl r.tenant_id) refl
    | inr other ↦ rw other (ground (arith, first_where-put c r (ground arith)))
  ]

  first_where-any :
      (test : AgentRecord D → Bool) (rs : List (AgentRecord D)) {r : AgentRecord D}
      → first_where test rs ≡ some r
      → any test rs ≡ true
  first_where-any test [] h = cc
  first_where-any test (old ∷ rs) {r} h = elim (Bool-cases (test old)) [
    | inl passes ↦ rw passes refl
    | inr fails ↦ rw fails (first_where-any test rs {r = r} (rw fails at h))
  ]

  -- A record that `create` accepts is the one found under its name and tenant, and a second one
  -- with that name and tenant is then refused without effect.
  pub create-get_by_name :
      (c : Catalog D) (r : AgentRecord D) {stored : AgentRecord D}
      → (create c r).1 ≡ returned stored
      → (get_by_name (create c r).0 r.name r.tenant_id ≡ some r)
        × ((s : AgentRecord D)
            → s.name ≡ r.name
            → s.tenant_id ≡ r.tenant_id
            → create (create c r).0 s ≡ ((create c r).0, raised (duplicate_agent s.name)))
  unfolding create get_by_name
  create-get_by_name c r {stored} h =
      elim (Bool-cases (any (is_named r.name r.tenant_id) (values c))) [
        | inl taken ↦ absurd (ground arith)
        | inr free ↦
            let here = first_where-put c r free in
            (
              rw free here,
              λ s same shared.
                  rw
                    (
                      free,
                      same,
                      shared,
                      first_where-any (is_named r.name r.tenant_id) (values (put c r.agent_id r))
                          here,
                    )
                    refl,
            )
      ]
