-- ===== src/Relations/Derive.antt =====
-- `deriveEffects` of src/core/relations.ts.
use react_native_dblayer.Base.{
  ℕ, zero, suc, Bool, true, false, not, Option, none, some, List, [], ◌∷◌, ◌++◌, if◌then◌else◌,
  keep, map,
}
use react_native_dblayer.Base.Str.{Str}
use react_native_dblayer.Base.StrMap
use react_native_dblayer.Base.StrMap.{StrMap}
use react_native_dblayer.Base.StrSet
use react_native_dblayer.Base.StrSet.{StrSet}
use react_native_dblayer.Base.Value.{Value}
use react_native_dblayer.CompositeKey.{composite_key}
use react_native_dblayer.Where.Filter.{Row}
use react_native_dblayer.Scope.Entry.{IncomingScopeRow}
use react_native_dblayer.Envelope.Types.{
  RowOrigin, event, replace, WriteOp, patch, scope, scope_delta, counter, AcceptedRow, DestroyedRow,
}
use react_native_dblayer.Relations.Types.{
  RelationDecl, RelationHost, RelationPlanReader, TouchEntry,
}
use react_native_dblayer.Relations.Pending.{
  MembershipEntry, accumulate_membership, detach_accumulated_membership,
}
use react_native_dblayer.Relations.Effects.{
  Plan, push, upsert_effects, replace_effects, destroy_effects,
}

-- The rows with an origin, which the plan itself writes.
unfoldable pub authoritative_rows : List AcceptedRow → StrSet → StrSet
authoritative_rows [] keys = keys
authoritative_rows (row ∷ rows) keys = authoritative_rows rows (elim row.origin [
  | none ↦ keys
  | some _ ↦ StrSet.add (composite_key (row.model ∷ row.id ∷ [])) keys
])

-- `explicitScopeModels`
unfoldable pub explicit_scope_models : List WriteOp → StrSet → StrSet
explicit_scope_models [] models = models
explicit_scope_models (scope write ∷ ops) models =
    explicit_scope_models ops (StrSet.add write.model models)
explicit_scope_models (_ ∷ ops) models = explicit_scope_models ops models

-- `replacedIdsByModel`
unfoldable pub replaced_ids_by_model : List DestroyedRow → StrMap StrSet → StrMap StrSet
replaced_ids_by_model [] replaced = replaced
replaced_ids_by_model (row ∷ rows) replaced = replaced_ids_by_model rows (
    if row.is_replace
    then StrMap.set row.model
        (StrSet.add row.id (elim (StrMap.get row.model replaced) [ none ↦ [] | some ids ↦ ids ]))
        replaced
    else replaced)

placed_ids : List IncomingScopeRow → StrSet → StrSet
placed_ids [] ids = ids
placed_ids (row ∷ rows) ids =
    placed_ids rows (elim row.order_key [ none ↦ ids | some _ ↦ StrSet.add row.id ids ])

-- `placementIds`
unfoldable pub placement_ids : List WriteOp → StrMap StrSet → StrMap StrSet
unfolding placed_ids
placement_ids [] placements = placements
placement_ids (scope_delta delta ∷ ops) placements =
    let key = composite_key (delta.model ∷ delta.scope_key ∷ []) in
    placement_ids ops (
      StrMap.set key
        (placed_ids delta.append (elim (StrMap.get key placements) [ none ↦ [] | some ids ↦ ids ]))
        placements)
placement_ids (_ ∷ ops) placements = placement_ids ops placements

-- The patch of a parent, once, unless it is empty.
unfoldable pub flush_patch : TouchEntry → Row → Plan → Plan
flush_patch entry [] plan = plan
flush_patch entry (field ∷ fields) plan =
    let key = composite_key (entry.model ∷ entry.id ∷ []) in
    if StrSet.has key plan.touched
    then plan
    else push
        (patch record {
          model = entry.model;
          id = entry.id;
          patch = entry.patch;
          remove = none;
          operation_id = none;
          base_revision = none;
        })
        record plan { touched = StrSet.add key plan.touched }

-- The patches of `touchViews`.
unfoldable pub flush_touches : List TouchEntry → Plan → Plan
flush_touches [] plan = plan
flush_touches (entry ∷ entries) plan = flush_touches entries (flush_patch entry entry.patch plan)

abbrev pub is_settled : Plan → Bool
is_settled plan = elim plan.queue [
  | [] ↦ elim plan.touch_views [ [] ↦ true | _ ∷ _ ↦ false ]
  | _ ∷ _ ↦ false
]

-- The loop that empties the queue and the touches into `out`, with what it leaves. Two rounds are
-- enough: a flush adds no touch.
unfoldable pub drain : ℕ → List WriteOp → Plan → List WriteOp × Plan
drain zero out plan = (out, plan)
drain (suc rounds) out plan =
    let rest = drain rounds (out ++ plan.queue) (
      flush_touches (StrMap.values plan.touch_views)
        record plan { queue = []; touch_views = [] }) in
    if is_settled plan then (out, plan) else rest

abbrev pub unplaced : Option StrSet → Str → Bool
unplaced none id = true
unplaced (some placed) id = not (StrSet.has id placed)

abbrev pub keyless : Str → IncomingScopeRow
keyless id = record { id = id; order_key = none }

unfoldable pub delta_of : MembershipEntry → List Str → List Str → List WriteOp
delta_of entry [] [] = []
delta_of entry append detach =
    scope_delta record {
      model = entry.model;
      scope_key = entry.scope_key;
      append = map keyless append;
      detach = detach;
    }
    ∷ []

-- The scope delta of an entry, without the ids that the plan places itself.
unfoldable pub membership_ops : StrMap StrSet → List MembershipEntry → List WriteOp
unfolding delta_of
membership_ops placements [] = []
membership_ops placements (entry ∷ entries) =
    delta_of entry
      (keep (unplaced (StrMap.get (composite_key (entry.model ∷ entry.scope_key ∷ [])) placements))
        entry.append)
      entry.detach
    ++ membership_ops placements entries

-- A counter of a row that the plan itself writes is dropped.
unfoldable pub is_kept : StrSet → WriteOp → Bool
is_kept authoritative (counter ref delta) =
    not (StrSet.has (composite_key (ref.model ∷ ref.id ∷ [])) authoritative)
is_kept authoritative _ = true

abbrev pub empty_plan : Plan
empty_plan = record {
  queue = [];
  counted = [];
  destroyed = [];
  touched = [];
  touch_views = [];
  membership = [];
}

module _ (text_of : Value → Str) (hosts : Str → Option RelationHost)
    (reader : RelationPlanReader) where
  -- The effects of the origin matrix on an accepted row.
  unfoldable pub accept_effects :
      StrSet → StrMap StrSet → AcceptedRow → List RelationDecl → Option RowOrigin → Plan → Plan
  accept_effects authoritative replaced row relations none plan = plan
  accept_effects authoritative replaced row relations (some event) plan =
      upsert_effects text_of reader authoritative replaced row.model row.after
        (elim row.before [ none ↦ false | some _ ↦ true ]) relations plan
  accept_effects authoritative replaced row relations (some replace) plan =
      replace_effects text_of reader authoritative replaced row.model row.after relations plan

  unfoldable pub accept_row :
      StrSet → StrMap StrSet → StrSet → AcceptedRow → RelationHost → Plan → Plan
  accept_row authoritative replaced explicit row host plan =
      accept_effects authoritative replaced row (StrMap.values host.relations) row.origin (
        if StrSet.has row.model explicit then plan else record plan {
          membership =
              accumulate_membership row.model (host.membership_for_upsert row.before row.after)
                plan.membership;
        })

  unfoldable pub accept_rows : StrSet → StrMap StrSet → StrSet → List AcceptedRow → Plan → Plan
  unfolding accept_row
  accept_rows authoritative replaced explicit [] plan = plan
  accept_rows authoritative replaced explicit (row ∷ rows) plan =
      accept_rows authoritative replaced explicit rows (elim (hosts row.model) [
        | none ↦ plan
        | some host ↦ accept_row authoritative replaced explicit row host plan
      ])

  unfoldable pub destroy_row : StrSet → StrMap StrSet → DestroyedRow → Plan → Plan
  destroy_row authoritative replaced row plan =
      let detached = record plan {
        membership = detach_accumulated_membership row.model row.id (
            accumulate_membership row.model
              (elim (hosts row.model) [ none ↦ [] | some host ↦ host.detach_for_destroy row.id ])
              plan.membership);
      } in
      if row.is_replace
      then detached
      else destroy_effects text_of reader authoritative replaced (hosts row.model) row.model row.id
          row.before detached

  unfoldable pub destroy_rows : StrSet → StrMap StrSet → List DestroyedRow → Plan → Plan
  unfolding destroy_row
  destroy_rows authoritative replaced [] plan = plan
  destroy_rows authoritative replaced (row ∷ rows) plan =
      destroy_rows authoritative replaced rows (destroy_row authoritative replaced row plan)

  -- The plan after the accepted and the destroyed rows.
  unfoldable pub gather : List AcceptedRow → List DestroyedRow → List WriteOp → Plan
  gather accepted destroyed raw_ops =
      let authoritative = authoritative_rows accepted [] in
      let replaced = replaced_ids_by_model destroyed [] in
      destroy_rows authoritative replaced destroyed
        (accept_rows authoritative replaced (explicit_scope_models raw_ops []) accepted empty_plan)

  -- `deriveEffects`
  unfoldable pub derive_effects : List AcceptedRow → List DestroyedRow → List WriteOp → List WriteOp
  derive_effects accepted destroyed raw_ops =
      let plan = gather accepted destroyed raw_ops in
      let (out, rest) = drain 2 [] plan in
      keep (is_kept (authoritative_rows accepted []))
        (out ++ membership_ops (placement_ids raw_ops []) (StrMap.values plan.membership))
