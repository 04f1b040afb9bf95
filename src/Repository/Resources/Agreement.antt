-- ===== src/Repository/Resources/Agreement.antt =====
-- The two repositories of resource definitions behave alike.
use open_simple_agent.Base.Dict
use mathlib.Core.Option
use open_simple_agent.Base.Dict.{put, erase}
use open_simple_agent.Lease.{scope}
use open_simple_agent.Repository.Resources.{ResourceKey, Item, resource_key, tenant_of}
use open_simple_agent.Repository.Resources.Memory
use open_simple_agent.Repository.Resources.Memory.{Items}
use open_simple_agent.Repository.Resources.Table
use open_simple_agent.Repository.Resources.Table.{
  ResourceRow, SpecJson, row_key, upsert_row, find_spec, has_repeat, upsert_rows,
}
use open_simple_agent.Base.{
  Bool, Bool-cases, List, Option, [], ap, false, if◌then◌else◌, inl, inr, is_some, none, not, refl,
  some, true, ◌&&◌, ◌∙◌, ◌∷◌, ◌≡◌,
}
use open_simple_agent.Base.Dict.{Dict}
use open_simple_agent.Base.Lists.{any, filter}
use open_simple_agent.Base.Same.{nat_eq, option_eq, pair_eq, ◌==◌}
use open_simple_agent.Base.Text.{Text, text_eq}

module _ {S : Type 0} (W : SpecJson S) where
  -- what the rows stand for
  unfoldable pub view : List (ResourceRow W.Json) → Items S
  view [] = []
  view (row ∷ rows) = (row_key row, W.load row.spec) ∷ view rows

  view-upsert_row :
      (rows : List (ResourceRow W.Json)) (new : ResourceRow W.Json)
      → view (upsert_row rows new) ≡ put (view rows) (row_key new) (W.load new.spec)
  unfolding view upsert_row put
  view-upsert_row [] new = refl
  view-upsert_row (row ∷ rows) new = elim (Bool-cases (row_key row == row_key new)) [
    | inl same ↦ rw same refl
    | inr other ↦ rw (other, view-upsert_row rows new) refl
  ]

  view-upsert :
      (rows : List (ResourceRow W.Json)) (kind name : Text) (spec : S) (tenant_id : Option Text)
      → view (Table.upsert W rows kind name spec tenant_id)
        ≡ put (view rows) (resource_key tenant_id kind name) spec
  unfolding Table.upsert resource_key
  view-upsert rows kind name spec tenant_id =
      view-upsert_row rows _
      ∙ ap (put (view rows) (scope tenant_id, (kind, name))) (W.load-dump spec)

  view-upsert_rows :
      (rows : List (ResourceRow W.Json)) (items : List (Item S)) (tenant_id : Option Text)
      → view (upsert_rows W rows items tenant_id) ≡ Memory.upsert_many (view rows) items tenant_id
  unfolding upsert_rows Memory.upsert_many
  view-upsert_rows rows [] tenant_id = refl
  view-upsert_rows rows ((kind, (name, spec)) ∷ rest) tenant_id =
      view-upsert_rows (Table.upsert W rows kind name spec tenant_id) rest tenant_id
      ∙ ap (λ d. Memory.upsert_many d rest tenant_id) (view-upsert rows kind name spec tenant_id)

  view-find :
      (rows : List (ResourceRow W.Json)) (key : ResourceKey)
      → Option.map W.load (find_spec rows key) ≡ Dict.get (view rows) key
  unfolding view find_spec Dict.get
  view-find [] key = refl
  view-find (row ∷ rows) key = elim (Bool-cases (row_key row == key)) [
    | inl same ↦ rw same refl
    | inr other ↦ rw other (view-find rows key)
  ]

  view-filter :
      (rows : List (ResourceRow W.Json)) (key : ResourceKey)
      → view (filter (λ row. not (row_key row == key)) rows) ≡ erase (view rows) key
  unfolding view erase
  view-filter [] key = refl
  view-filter (row ∷ rows) key = elim (Bool-cases (row_key row == key)) [
    | inl same ↦ rw same (view-filter rows key)
    | inr other ↦ rw (other, view-filter rows key) refl
  ]

  any-view :
      (rows : List (ResourceRow W.Json)) (key : ResourceKey)
      → any (λ row. row_key row == key) rows ≡ is_some (Dict.get (view rows) key)
  unfolding view Dict.get
  any-view [] key = refl
  any-view (row ∷ rows) key = elim (Bool-cases (row_key row == key)) [
    | inl same ↦ rw same refl
    | inr other ↦ rw (other, any-view rows key) refl
  ]

  list-view :
      (rows : List (ResourceRow W.Json)) (kind : Text) (tenant_id : Option Text)
      → Table.list W rows kind tenant_id ≡ Memory.list (view rows) kind tenant_id
  unfolding view Table.list Memory.list Memory.list_in
  list-view [] kind tenant_id = refl
  list-view (row ∷ rows) kind tenant_id =
      elim (Bool-cases (row.tenant_id == scope tenant_id && row.kind == kind)) [
        | inl chosen ↦
            rw chosen (ap (λ r. (row.name, W.load row.spec) ∷ r) (list-view rows kind tenant_id))
        | inr left_out ↦ rw left_out (list-view rows kind tenant_id)
      ]

  list_all-view :
      (rows : List (ResourceRow W.Json)) (kind : Text)
      → Table.list_all W rows kind ≡ Memory.list_all (view rows) kind
  unfolding view Table.list_all Memory.list_all
  list_all-view [] kind = refl
  list_all-view (row ∷ rows) kind = elim (Bool-cases (row.kind == kind)) [
    | inl chosen ↦
        rw chosen
          (ap (λ r. (tenant_of row.tenant_id, W.load row.spec) ∷ r) (list_all-view rows kind))
    | inr left_out ↦ rw left_out (list_all-view rows kind)
  ]

  pub resources_agree :
      (rows : List (ResourceRow W.Json)) (kind name : Text) (spec : S) (items : List (Item S))
      (tenant_id : Option Text) (refuses_repeats : Bool)
      → (view (Table.upsert W rows kind name spec tenant_id)
          ≡ Memory.upsert (view rows) kind name spec tenant_id)
        × (Option.map view (Table.upsert_many W refuses_repeats rows items tenant_id) ≡ (
            if refuses_repeats && has_repeat items
            then none
            else some (Memory.upsert_many (view rows) items tenant_id)))
        × (Table.get W rows kind name tenant_id ≡ Memory.get (view rows) kind name tenant_id)
        × (Table.list W rows kind tenant_id ≡ Memory.list (view rows) kind tenant_id)
        × (Table.list_all W rows kind ≡ Memory.list_all (view rows) kind)
        × (view (Table.delete rows kind name tenant_id).0
            ≡ (Memory.delete (view rows) kind name tenant_id).0)
        × ((Table.delete rows kind name tenant_id).1
            ≡ (Memory.delete (view rows) kind name tenant_id).1)
  unfolding Memory.upsert Table.upsert_many Table.get Memory.get Table.delete Memory.delete
  resources_agree rows kind name spec items tenant_id refuses_repeats = (
    view-upsert rows kind name spec tenant_id,
    many (refuses_repeats && has_repeat items),
    view-find rows _,
    list-view rows kind tenant_id,
    list_all-view rows kind,
    view-filter rows _,
    any-view rows _,
  )
    where
      many :
          (refused : Bool)
          → Option.map view (if refused then none else some (upsert_rows W rows items tenant_id))
            ≡ (if refused then none else some (Memory.upsert_many (view rows) items tenant_id))
      many true = refl
      many false = ap some (view-upsert_rows rows items tenant_id)
