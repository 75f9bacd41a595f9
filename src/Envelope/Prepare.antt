-- ===== src/Envelope/Prepare.antt =====
-- `prepareOperations` of src/core/apply/commitEnvelope.ts. The counter of dropped counter
-- operations in diagnostics is left out.
use react_native_dblayer.Base.{
  Bool, true, false, Option, none, some, List, [], ◌∷◌, ◌++◌, if◌then◌else◌, keep,
}
use react_native_dblayer.Base.Str.{Str, text}
use react_native_dblayer.Base.StrMap.{StrMap}
use react_native_dblayer.Base.Value.{ℤ, int, Value, num}
use react_native_dblayer.Where.Filter.{Row, read_field}
use react_native_dblayer.Scope.Entry.{deduplicate_by_id}
use react_native_dblayer.Envelope.Types.{
  RowOrigin, Upsert, Patch, Destroy, ScopeWrite, ScopeDelta, CounterRef, WriteOp, upsert, patch,
  destroy, scope, scope_delta, counter, AppliedOp, PreparedRowWrite, ApplyTarget,
}
use react_native_dblayer.Envelope.Overlay.{Overlay, read_planned_row, write_planned_row}
use react_native_dblayer.Envelope.Inputs.{
  Phase, op_model, is_replace_origin, input_id, merge_base_of, effective, prepared_id,
  finite_number, plus, placed_keys, keyless_ids, place_entries,
}

module _ (text_of : Value → Str) (targets : Str → Option ApplyTarget) where
  unfoldable pub previous_of : Overlay → Str → Str → Option Row
  previous_of overlay model [] = none
  previous_of overlay model (c ∷ id) = read_planned_row targets overlay model (c ∷ id)

  -- The preview of one input row.
  unfoldable pub preview_input : ApplyTarget → Upsert → Value → Overlay → Option PreparedRowWrite
  preview_input target op input overlay = effective (
      target.prepare_upsert input (previous_of overlay op.model (input_id text_of input)) op.origin
        (merge_base_of op.origin op.merge_base) op.operation_id op.base_revision)

  -- An accepted row with its place in the overlay.
  unfoldable pub accept :
      Str → Str → Option Row → Option RowOrigin → PreparedRowWrite → Phase → Phase
  accept model id before origin prepared phase = record phase {
    overlay = write_planned_row phase.overlay model id (some prepared.row);
    accepted =
        phase.accepted
        ++ record {
          model = model;
          id = id;
          before = before;
          after = prepared.row;
          origin = origin;
          changed_fields = prepared.changed_fields;
        }
          ∷ [];
  }

  unfoldable pub before_upsert : Upsert → Value → Overlay → Option Row
  before_upsert op input overlay =
      if is_replace_origin op.origin
      then merge_base_of op.origin op.merge_base
      else previous_of overlay op.model (input_id text_of input)

  unfoldable pub write_input :
      Upsert → Value → Option PreparedRowWrite → List Row → Phase → Option (List Row × Phase)
  unfolding before_upsert
  write_input op input none rows phase = some (rows, phase)
  write_input op input (some prepared) rows phase = elim (prepared_id prepared.row) [
    | none ↦ none
    | some id ↦ some (
      rows ++ prepared.row ∷ [],
      accept op.model id (before_upsert op input phase.overlay) op.origin prepared phase,
    )
  ]

  -- The rows of an upsert, each read after those before it are written.
  unfoldable pub upsert_rows :
      ApplyTarget → Upsert → List Value → List Row → Phase → Option (List Row × Phase)
  unfolding write_input
  upsert_rows target op [] rows phase = some (rows, phase)
  upsert_rows target op (input ∷ inputs) rows phase =
      elim (write_input op input (preview_input target op input phase.overlay) rows phase) [
        | none ↦ none
        | some next ↦ upsert_rows target op inputs next.0 next.1
      ]

  unfoldable pub push_op : AppliedOp → Phase → Phase
  push_op op phase = record phase { ops = phase.ops ++ op ∷ [] }

  unfoldable pub push_upsert : Upsert → List Row → Phase → Phase
  unfolding push_op
  push_upsert op [] phase = phase
  push_upsert op (row ∷ rows) phase =
      push_op
        (upsert
          record { model = op.model; rows = row ∷ rows; is_replace = is_replace_origin op.origin })
        phase

  unfoldable pub prepare_upsert_op : ApplyTarget → Upsert → Phase → Option Phase
  unfolding push_upsert
  prepare_upsert_op target op phase = elim (upsert_rows target op op.rows [] phase) [
    | none ↦ none
    | some next ↦ some (push_upsert op next.0 next.1)
  ]

  -- The write of a patch or a counter. The id of the row is read as text.
  unfoldable pub write_patched : Str → Option Row → Option PreparedRowWrite → Phase → Phase
  unfolding push_op
  write_patched model before none phase = phase
  write_patched model before (some prepared) phase =
      accept model (text_of (read_field prepared.row (text "id"))) before none prepared (
        push_op (upsert record { model = model; rows = prepared.row ∷ []; is_replace = false })
          phase)

  unfoldable pub prepare_patch_op : ApplyTarget → Patch → Phase → Phase
  prepare_patch_op target op phase =
      let previous = read_planned_row targets phase.overlay op.model op.id in
      write_patched op.model previous
        (effective
          (target.prepare_patch op.id op.patch previous op.operation_id op.remove op.base_revision))
        phase

  unfoldable pub count_on : ApplyTarget → CounterRef → ℤ → Row → Phase → Phase
  count_on target ref delta previous phase = elim (finite_number (read_field previous ref.field)) [
    | none ↦ phase
    | some value ↦
        write_patched ref.model (some previous)
          (effective (
            target.prepare_patch ref.id ((ref.field, num (int (plus value delta))) ∷ [])
              (some previous) none none none))
          phase
  ]

  unfoldable pub prepare_counter_op : ApplyTarget → CounterRef → ℤ → Phase → Phase
  unfolding count_on
  prepare_counter_op target ref delta phase =
      elim (read_planned_row targets phase.overlay ref.model ref.id) [
        | none ↦ phase
        | some previous ↦ count_on target ref delta previous phase
      ]

  -- The destroyed row of an admitted id that has one.
  unfoldable pub destroy_id : Destroy → Str → Option Row → List Str → Phase → List Str × Phase
  destroy_id op id none ids phase = (ids, phase)
  destroy_id op id (some previous) ids phase = (
    ids ++ id ∷ [],
    record phase {
      overlay = write_planned_row phase.overlay op.model id none;
      destroyed =
          phase.destroyed
          ++ record { model = op.model; id = id; before = previous; is_replace = op.is_replace }
            ∷ [];
    },
  )

  unfoldable pub destroy_ids :
      ApplyTarget → Destroy → List Str → List Str → Phase → List Str × Phase
  destroy_ids target op [] ids phase = (ids, phase)
  destroy_ids target op (id ∷ more) ids phase =
      let next =
        if target.admit_destroy id op.base_revision
        then destroy_id op id (read_planned_row targets phase.overlay op.model id) ids phase
        else (ids, phase) in
      destroy_ids target op more next.0 next.1

  unfoldable pub push_destroy : Destroy → List Str → Phase → Phase
  unfolding push_op
  push_destroy op [] phase = phase
  push_destroy op (id ∷ ids) phase =
      push_op
        (destroy record {
          model = op.model;
          ids = id ∷ ids;
          tombstone = op.tombstone;
          is_replace = op.is_replace;
          replaced_by = op.replaced_by;
        })
        phase

  unfoldable pub prepare_destroy_op : ApplyTarget → Destroy → Phase → Phase
  unfolding push_destroy
  prepare_destroy_op target op phase =
      let marked = record phase {
        operation_transitions = phase.operation_transitions ++ op.operation_transitions;
      } in
      let (ids, next) = destroy_ids target op op.ids [] marked in push_destroy op ids next

  -- `entryBelongs`
  unfoldable pub entry_belongs : ApplyTarget → Str → Str → Overlay → Str → Bool
  entry_belongs target model scope_key overlay id =
      elim (read_planned_row targets overlay model id) [
        | none ↦ true
        | some row ↦ target.row_belongs_to_scope scope_key row
      ]

  unfoldable pub prepare_scope_op : ApplyTarget → ScopeWrite → Phase → Phase
  unfolding push_op
  prepare_scope_op target op phase =
      push_op
        (scope record op {
          next = record (op.next) {
            entries =
                keep (λ entry. entry_belongs target op.model op.scope_key phase.overlay entry.id)
                  op.next.entries;
          };
        })
        phase

  placements_for : ApplyTarget → ScopeDelta → Overlay → List Str → StrMap Str
  unfolding placed_keys
  placements_for target op overlay [] = []
  placements_for target op overlay (id ∷ ids) =
      placed_keys
        (target.plan_scope_placement op.scope_key (id ∷ ids) (read_planned_row targets overlay)) []

  unfoldable pub prepare_delta_op : ApplyTarget → ScopeDelta → Phase → Phase
  unfolding push_op placements_for keyless_ids
  prepare_delta_op target op phase =
      let append =
        keep (λ entry. entry_belongs target op.model op.scope_key phase.overlay entry.id)
          (deduplicate_by_id (λ entry. entry.id) op.append) in
      push_op
        (scope_delta record {
          model = op.model;
          scope_key = op.scope_key;
          append =
              place_entries (placements_for target op phase.overlay (keyless_ids append)) append;
          detach = op.detach;
        })
        phase

  unfoldable pub prepare_operation : ApplyTarget → WriteOp → Phase → Option Phase
  prepare_operation target (upsert op) phase = prepare_upsert_op target op phase
  prepare_operation target (patch op) phase = some (prepare_patch_op target op phase)
  prepare_operation target (counter ref delta) phase =
      some (prepare_counter_op target ref delta phase)
  prepare_operation target (destroy op) phase = some (prepare_destroy_op target op phase)
  prepare_operation target (scope op) phase = some (prepare_scope_op target op phase)
  prepare_operation target (scope_delta op) phase = some (prepare_delta_op target op phase)

  -- The loop of `prepareOperations`; `none` where it throws.
  unfoldable pub prepare_from : List WriteOp → Phase → Option Phase
  prepare_from [] phase = some phase
  prepare_from (op ∷ ops) phase = elim (targets (op_model op)) [
    | none ↦ none
    | some target ↦ elim (prepare_operation target op phase) [
      | none ↦ none
      | some next ↦ prepare_from ops next
    ]
  ]

  -- `prepareOperations`
  unfoldable pub prepare_operations : List WriteOp → Overlay → Option Phase
  prepare_operations ops overlay = prepare_from ops record {
    overlay = overlay;
    ops = [];
    accepted = [];
    destroyed = [];
    operation_transitions = [];
  }
