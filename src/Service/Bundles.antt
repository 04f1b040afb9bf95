-- ===== src/Service/Bundles.antt =====
-- The files of a bundle.
use open_simple_agent.Base.Dict
use open_simple_agent.Base.Dict.{put}
use open_simple_agent.Service.Interfaces.{AgentDefinition}
use open_simple_agent.Service.{ResourceKind, ServiceError, missing_reference}
use open_simple_agent.Service.Kinds.{below_root, directory_inj, every_kind}
use open_simple_agent.Service.References.{
  BundleWriter, Files, exporters, export_bundle, export_kinds, export_names, resource_path,
  root_files, sorted_names, sorted_names-any, wanted,
}
use open_simple_agent.Base.{
  Bool-cases, List, Option, Option-cases, [], ap, arith, inl, inr, none, refl, some, sym, true, ◌∙◌,
  ◌∷◌, ◌≡◌, ◌⊎◌,
}
use open_simple_agent.Base.Dict.{Dict, get-put, get-put_self}
use open_simple_agent.Base.Lists.{any}
use open_simple_agent.Base.Result.{raised, returned, returned_inj}
use open_simple_agent.Base.Same.{nat_eq, option_eq, pair_eq, same_refl, ◌==◌}
use open_simple_agent.Base.Text.{Text, text, text_eq, text_same, text_same_iff}
use open_simple_agent.Base.Lists.{All}
use open_simple_agent.Base.Result.{Result}

export_result :
    (r : Result ServiceError Files)
    → ((e : ServiceError) × (r ≡ raised e)) ⊎ ((files : Files) × (r ≡ returned files))
export_result (raised e) = inl (e, refl)
export_result (returned files) = inr (files, refl)

module _ (b : BundleWriter) (lookup : ResourceKind → Text → Option Text) where
  -- the resource is defined, and its file has the definition
  abbrev pub IsWritten : Files → ResourceKind → Text → Type 0
  IsWritten files kind n =
      (spec : Text) × (lookup kind n ≡ some spec)
      × (Dict.get files (resource_path b kind n) ≡ some (b.resource_yaml kind spec))

  -- whatever a resource writes at the path is the same text
  abbrev IsFixed : Text × Text → Text → Type 0
  IsFixed path content =
      (kind : ResourceKind) (n spec : Text)
      → lookup kind n ≡ some spec
      → resource_path b kind n ≡ path
      → b.resource_yaml kind spec ≡ content

  put_keeps :
      (files : Files) (path : Text × Text) (content : Text) (kind : ResourceKind) (n spec : Text)
      → IsFixed path content
      → lookup kind n ≡ some spec
      → Dict.get files path ≡ some content
      → Dict.get (put files (resource_path b kind n) (b.resource_yaml kind spec)) path
        ≡ some content
  put_keeps files path content kind n spec fixed defined there =
      get-put files (resource_path b kind n) path (b.resource_yaml kind spec)
      ∙ elim (Bool-cases (resource_path b kind n == path)) [
        | inr other ↦ rw other there
        | inl same ↦ rw same (
            ap some
              (fixed kind n spec defined ((pair_eq.same_iff (resource_path b kind n) path).0 same)))
      ]

  export_names_keeps :
      (kind : ResourceKind) (ns : List Text) (files : Files) (path : Text × Text) (content : Text)
      {out : Files}
      → IsFixed path content
      → export_names b (lookup kind) kind ns files ≡ returned out
      → Dict.get files path ≡ some content
      → Dict.get out path ≡ some content
  unfolding export_names
  export_names_keeps kind [] files path content {out} fixed done there =
      ap (λ (f : Files). Dict.get f path) (sym (returned_inj done)) ∙ there
  export_names_keeps kind (n ∷ ns) files path content {out} fixed done there =
      elim (Option-cases (lookup kind n)) [
        | inl lacks ↦ absurd (cc (rw (lacks, export_names) at done))
        | inr (spec, defined) ↦
            export_names_keeps kind ns _ path content {out = out} fixed
              (rw (defined, export_names) at done)
              (put_keeps files path content kind n spec fixed defined there)
      ]

  export_kinds_keeps :
      (d : AgentDefinition) (kinds : List ResourceKind) (files : Files) (path : Text × Text)
      (content : Text) {out : Files}
      → IsFixed path content
      → export_kinds b lookup d kinds files ≡ returned out
      → Dict.get files path ≡ some content
      → Dict.get out path ≡ some content
  unfolding export_kinds
  export_kinds_keeps d [] files path content {out} fixed done there =
      ap (λ (f : Files). Dict.get f path) (sym (returned_inj done)) ∙ there
  export_kinds_keeps d (kind ∷ kinds) files path content {out} fixed done there =
      let names = sorted_names (wanted d kind) in
      elim (export_result (export_names b (lookup kind) kind names files)) [
        | inl (e, failed) ↦ absurd (cc (rw failed at done))
        | inr (written, ok) ↦
            export_kinds_keeps d kinds written path content {out = out} fixed (rw ok at done)
              (export_names_keeps kind names files path content {out = written} fixed ok there)
      ]

  first_file :
      (d : AgentDefinition) (name version : Text)
      → Dict.get (root_files b d name version) ([], text "agent.yaml") ≡ some (b.agent_yaml d)
  unfolding put Dict.get text_same
  first_file d name version = refl

  second_file :
      (d : AgentDefinition) (name version : Text)
      → Dict.get (root_files b d name version) ([], text "bundle.yaml")
        ≡ some (b.bundle_yaml name version)
  second_file d name version = get-put_self (put [] ([], text "agent.yaml") (b.agent_yaml d)) _ _

  IsFixed-root : (name content : Text) → IsFixed ([], name) content
  IsFixed-root name content kind n spec defined e =
      absurd (below_root kind (ap (λ (p : Text × Text). p.0) e))

  module _ (no_collision : (a c : Text) → b.file_name a ≡ b.file_name c → a ≡ c) where
    IsFixed-resource :
        (kind : ResourceKind) (n spec : Text)
        → lookup kind n ≡ some spec
        → IsFixed (resource_path b kind n) (b.resource_yaml kind spec)
    IsFixed-resource kind n spec defined kind' n' spec' defined' e =
        let same_kind = directory_inj kind' kind (ap (λ (p : Text × Text). p.0) e) in
        let same_name = no_collision n' n (ap (λ (p : Text × Text). p.1) e) in
        let same_spec : spec' ≡ spec =
          cc (
            sym defined'
            ∙ ap (λ k. lookup k n') same_kind
            ∙ ap (lookup kind) same_name
            ∙ defined) in
        ap (λ k. b.resource_yaml k spec') same_kind ∙ ap (b.resource_yaml kind) same_spec

    export_names_cases :
        (kind : ResourceKind) (ns : List Text) (files : Files)
        → ((out : Files) × (export_names b (lookup kind) kind ns files ≡ returned out)
            × ((n : Text) → any (λ m. m == n) ns ≡ true → IsWritten out kind n))
          ⊎ ((n : Text) × (export_names b (lookup kind) kind ns files
                ≡ raised (missing_reference kind n))
              × (lookup kind n ≡ none)
              × (any (λ m. m == n) ns ≡ true))
    unfolding export_names
    export_names_cases kind [] files = inl (files, refl, λ n h. absurd (cc (h)))
    export_names_cases kind (n ∷ ns) files = elim (Option-cases (lookup kind n)) [
      | inl lacks ↦ inr (n, rw (lacks, export_names) refl, lacks, rw (same_refl n) refl)
      | inr (spec, defined) ↦
          let path = resource_path b kind n in
          let next = put files path (b.resource_yaml kind spec) in
          elim (export_names_cases kind ns next) [
            | inr (m, e, lacks, inside) ↦
                inr (m, rw (defined, export_names) e, lacks, rw inside (ground arith))
            | inl (out, e, all) ↦
                let here : IsWritten out kind n = (
                  spec,
                  defined,
                  export_names_keeps kind ns next path (b.resource_yaml kind spec) {out = out}
                      (IsFixed-resource kind n spec defined) e
                      (get-put_self files path (b.resource_yaml kind spec)),
                ) in
                inl (
                  out,
                  rw (defined, export_names) e,
                  λ m h. elim (Bool-cases (n == m)) [
                    | inl same ↦ rw (← (text_same_iff n m).0 same) here
                    | inr other ↦ all m (rw other at h)
                  ],
                )
          ]
    ]

    export_kinds_cases :
        (d : AgentDefinition) (kinds : List ResourceKind) (files : Files)
        → ((out : Files) × (export_kinds b lookup d kinds files ≡ returned out)
            × All
                (λ kind.
                  (n : Text) → any (λ m. m == n) (wanted d kind) ≡ true → IsWritten out kind n)
                kinds)
          ⊎ ((kind : ResourceKind) × (n : Text) × (export_kinds b lookup d kinds files
                ≡ raised (missing_reference kind n))
              × (lookup kind n ≡ none)
              × (any (λ m. m == n) (wanted d kind) ≡ true))
    unfolding export_kinds
    export_kinds_cases d [] files = inl (files, refl, tt)
    export_kinds_cases d (kind ∷ kinds) files =
        let names = sorted_names (wanted d kind) in
        elim (export_names_cases kind names files) [
          | inr (n, e, lacks, inside) ↦ inr (
            kind,
            n,
            rw e refl,
            lacks,
            sym (sorted_names-any (λ m. m == n) (wanted d kind)) ∙ inside,
          )
          | inl (written, e, all) ↦ elim (export_kinds_cases d kinds written) [
            | inr (k, n, rest, lacks, inside) ↦ inr (k, n, rw e rest, lacks, inside)
            | inl (out, rest, alls) ↦ inl (
              out,
              rw e rest,
              (
                λ n h.
                    let (spec, defined, there) =
                      all n (sorted_names-any (λ m. m == n) (wanted d kind) ∙ h) in
                    (
                      spec,
                      defined,
                      export_kinds_keeps d kinds written (resource_path b kind n)
                          (b.resource_yaml kind spec) {out = out}
                          (IsFixed-resource kind n spec defined) rest there,
                    ),
                alls,
              ),
            )
          ]
        ]

    pub export_bundle_cases :
        (d : AgentDefinition) (name version : Text)
        → ((files : Files) × (export_bundle b lookup d name version ≡ returned files)
            × (Dict.get files ([], text "agent.yaml") ≡ some (b.agent_yaml d))
            × (Dict.get files ([], text "bundle.yaml") ≡ some (b.bundle_yaml name version))
            × ((kind : ResourceKind) (n : Text)
                → any (λ m. m == n) (wanted d kind) ≡ true
                → IsWritten files kind n))
          ⊎ ((kind : ResourceKind) × (n : Text) × (export_bundle b lookup d name version
                ≡ raised (missing_reference kind n))
              × (lookup kind n ≡ none)
              × (any (λ m. m == n) (wanted d kind) ≡ true))
    unfolding export_bundle
    export_bundle_cases d name version =
        let begun = root_files b d name version in
        elim (export_kinds_cases d exporters begun) [
          | inr failed ↦ inr failed
          | inl (out, e, (m, (t, (s, (c, (p, _)))))) ↦ inl (
            out,
            e,
            export_kinds_keeps d exporters begun ([], text "agent.yaml") (b.agent_yaml d)
                {out = out} (IsFixed-root _ _) e (first_file d name version),
            export_kinds_keeps d exporters begun ([], text "bundle.yaml")
                (b.bundle_yaml name version) {out = out} (IsFixed-root _ _) e
                (second_file d name version),
            λ kind.
                every_kind
                  (λ k. (n : Text) → any (λ r. r == n) (wanted d k) ≡ true → IsWritten out k n) kind
                  m t s c p,
          )
        ]
