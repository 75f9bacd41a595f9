-- ===== src/Envelope/Compile.antt =====
-- `compileWritePlan` and `createCommitEnvelope` of src/core/apply/commitEnvelope.ts. The phases of
-- a plan run on fuel: each is derived from the rows of the one before.
use react_native_dblayer.Base.{
  ℕ, zero, suc, Bool, true, false, ◌||◌, not, Option, none, some, List, [], ◌∷◌, ◌++◌,
  if◌then◌else◌, keep, every,
}
use react_native_dblayer.Base.Str.{Str}
use react_native_dblayer.Base.StrMap
use react_native_dblayer.Base.StrMap.{StrMap}
use react_native_dblayer.Base.StrSet
use react_native_dblayer.Base.StrSet.{StrSet}
use react_native_dblayer.Base.Value.{Value}
use react_native_dblayer.CompositeKey.{composite_key, decimal}
use react_native_dblayer.Ledger.Types.{OperationTransition}
use react_native_dblayer.Scope.Entry.{ScopeEntry, IncomingScopeRow}
use react_native_dblayer.Relations.Types.{RelationHost}
use react_native_dblayer.Relations.Derive.{derive_effects}
use react_native_dblayer.Envelope.Types.{
  WriteOp, AppliedOp, upsert, destroy, scope, scope_delta, AcceptedRow, ApplyTarget,
}
use react_native_dblayer.Envelope.Overlay.{Overlay, read_planned_row, read_planned_rows}
use react_native_dblayer.Envelope.Prepare.{prepare_operations}
use react_native_dblayer.Envelope.Inputs.{Phase, op_model}

-- `isScopeOperation`
unfoldable pub is_scope_operation : AppliedOp → Bool
is_scope_operation (upsert op) = false
is_scope_operation (destroy op) = false
is_scope_operation (scope op) = true
is_scope_operation (scope_delta op) = true

-- What the phases of a plan gather.
pub record Gathered : Type 0 where
  pub overlay : Overlay
  pub planned : List AppliedOp
  pub operation_transitions : List OperationTransition
  pub accepted : List AcceptedRow

unfoldable pub gather_phase : Gathered → Phase → Gathered
gather_phase so_far phase = record {
  overlay = phase.overlay;
  planned = so_far.planned ++ phase.ops;
  operation_transitions = so_far.operation_transitions ++ phase.operation_transitions;
  accepted = so_far.accepted ++ phase.accepted;
}

abbrev pub is_last : Phase → Bool
is_last phase = elim phase.accepted [
  | [] ↦ elim phase.destroyed [ [] ↦ true | _ ∷ _ ↦ false ]
  | _ ∷ _ ↦ false
]

add_touched : Str → Str → List Str → StrSet → StrSet
add_touched model scope_key [] touched = touched
add_touched model scope_key (id ∷ ids) touched =
    add_touched model scope_key ids
      (StrSet.add (composite_key (model ∷ scope_key ∷ id ∷ [])) touched)

appended_ids : List IncomingScopeRow → List Str
appended_ids [] = []
appended_ids (entry ∷ entries) = entry.id ∷ appended_ids entries

-- `planTouched`
unfoldable pub plan_touched : List AppliedOp → StrSet → StrSet
unfolding add_touched appended_ids
plan_touched [] touched = touched
plan_touched (scope_delta op ∷ ops) touched = plan_touched ops (
    add_touched op.model op.scope_key op.detach
      (add_touched op.model op.scope_key (appended_ids op.append) touched))
plan_touched (_ ∷ ops) touched = plan_touched ops touched

pub record RepositionGroup : Type 0 where
  pub model : Str
  pub scope_key : Str
  pub ids : StrSet

group_with : Str → Str → Str → StrMap RepositionGroup → StrMap RepositionGroup
group_with model scope_key id groups =
    let key = composite_key (model ∷ scope_key ∷ []) in
    let group : RepositionGroup = elim (StrMap.get key groups) [
      | none ↦ record { model = model; scope_key = scope_key; ids = [] }
      | some found ↦ found
    ] in
    StrMap.set key record group { ids = StrSet.add id group.ids } groups

-- The scopes of one accepted row whose order it may change.
group_scopes :
    ApplyTarget → StrSet → AcceptedRow → List Str → StrMap RepositionGroup → StrMap RepositionGroup
unfolding group_with
group_scopes target touched row [] groups = groups
group_scopes target touched row (scope_key ∷ scope_keys) groups =
    group_scopes target touched row scope_keys (
      if StrSet.has (composite_key (row.model ∷ scope_key ∷ row.id ∷ [])) touched
        || (target.is_server_order scope_key
            || not (target.scope_order_affected scope_key row.id row.changed_fields))
      then groups
      else group_with row.model scope_key row.id groups)

-- `repositioned`: a later placement of one row replaces the earlier one.
add_placements : RepositionGroup → List ScopeEntry → StrMap AppliedOp → StrMap AppliedOp
add_placements group [] placed = placed
add_placements group (entry ∷ entries) placed = add_placements group entries (
    StrMap.set (composite_key (group.model ∷ group.scope_key ∷ entry.id ∷ []))
      (scope_delta record {
        model = group.model;
        scope_key = group.scope_key;
        append = record { id = entry.id; order_key = some entry.order_key } ∷ [];
        detach = [];
      })
      placed)

pub record CommitEnvelope : Type 0 where
  pub schema_version : ℕ
  pub tx_id : Str
  pub epoch : ℕ
  pub entity_ops : List AppliedOp
  pub scope_ops : List AppliedOp
  pub operation_transitions : List OperationTransition

-- The entity work, then the scope work, each in the order of the plan.
unfoldable pub envelope_of :
    ℕ → ℕ → List AppliedOp → List OperationTransition → List OperationTransition → CommitEnvelope
envelope_of epoch sequence planned transitions explicit = record {
  schema_version = 1;
  tx_id = decimal epoch ++ 58 ∷ decimal sequence;
  epoch = epoch;
  entity_ops = keep (λ op. not (is_scope_operation op)) planned;
  scope_ops = keep is_scope_operation planned;
  operation_transitions = transitions ++ explicit;
}

module _ (text_of : Value → Str) (targets : Str → Option ApplyTarget)
    (hosts : Str → Option RelationHost) where
  -- The phases after the first, with all source operations so far.
  unfoldable pub run_phases : ℕ → List WriteOp → Phase → Gathered → Option Gathered
  run_phases zero source_ops phase so_far = if is_last phase then some so_far else none
  run_phases (suc fuel) source_ops phase so_far =
      let effects =
        derive_effects text_of hosts
          record {
            read = read_planned_row targets phase.overlay;
            rows = read_planned_rows targets phase.overlay;
          }
          phase.accepted phase.destroyed source_ops in
      let rest : Option Gathered = elim (prepare_operations text_of targets effects phase.overlay) [
        | none ↦ none
        | some next ↦ run_phases fuel (source_ops ++ effects) next (gather_phase so_far next)
      ] in
      if is_last phase then some so_far else elim effects [ [] ↦ some so_far | _ ∷ _ ↦ rest ]

  unfoldable pub reposition_groups :
      StrSet → List AcceptedRow → StrMap RepositionGroup → StrMap RepositionGroup
  unfolding group_scopes
  reposition_groups touched [] groups = groups
  reposition_groups touched (row ∷ rows) groups =
      reposition_groups touched rows (elim (targets row.model) [
        | none ↦ groups
        | some target ↦
            group_scopes target touched row (target.reactive_scopes (row.id ∷ [])) groups
      ])

  unfoldable pub repositioned : Overlay → List RepositionGroup → StrMap AppliedOp → StrMap AppliedOp
  unfolding add_placements
  repositioned overlay [] placed = placed
  repositioned overlay (group ∷ groups) placed =
      repositioned overlay groups (elim (targets group.model) [
        | none ↦ placed
        | some target ↦
            add_placements group
              (target.plan_scope_placement group.scope_key group.ids
                (read_planned_row targets overlay))
              placed
      ])

  unfoldable pub reposition : Gathered → List AppliedOp
  reposition so_far =
      so_far.planned
      ++ StrMap.values (
          repositioned so_far.overlay
            (StrMap.values (reposition_groups (plan_touched so_far.planned []) so_far.accepted []))
            [])

  has_target : WriteOp → Bool
  has_target op = elim (targets (op_model op)) [ none ↦ false | some _ ↦ true ]

  -- `compileWritePlan`; `none` where it throws, or runs out of fuel.
  unfoldable pub compile_write_plan :
      ℕ → List WriteOp → Option (List AppliedOp × List OperationTransition)
  unfolding reposition has_target
  compile_write_plan fuel ops =
      if every has_target ops
      then elim (prepare_operations text_of targets ops []) [
        | none ↦ none
        | some phase ↦
            elim (run_phases fuel ops phase (
              gather_phase
                record { overlay = []; planned = []; operation_transitions = []; accepted = [] }
                phase)) [
                  | none ↦ none
                  | some so_far ↦ some (reposition so_far, so_far.operation_transitions)
                ]
      ]
      else none

  -- `createCommitEnvelope`, with the runtime generation and the new `transactionSequence`.
  unfoldable pub create_commit_envelope :
      ℕ → ℕ → ℕ → List WriteOp → List OperationTransition → Option CommitEnvelope
  create_commit_envelope fuel epoch sequence ops explicit = elim (compile_write_plan fuel ops) [
    | none ↦ none
    | some planned ↦ some (envelope_of epoch sequence planned.0 planned.1 explicit)
  ]
