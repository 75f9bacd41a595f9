-- ===== src/Envelope/Returns.antt =====
-- The compilation of operations in src/core/apply/commitEnvelope.ts returns, and agrees with them.
use react_native_dblayer.Base.{
  Bool, true, false, Option, none, some, List, [], ◌∷◌, ◌++◌, ◌≡◌, refl, ◌∙◌, arith, if◌then◌else◌,
  every, inl, inr, Option-cases,
}
use react_native_dblayer.Base.Str.{Str, text}
use react_native_dblayer.Base.Value.{ℤ, int, Value, num}
use react_native_dblayer.Where.Filter.{Row, read_field}
use react_native_dblayer.Envelope.Types.{
  Upsert, Destroy, CounterRef, ScopeWrite, ScopeDelta, WriteOp, upsert, patch, destroy, scope,
  scope_delta, counter, PreparedRowWrite, ApplyTarget,
}
use react_native_dblayer.Envelope.Overlay.{Overlay, read_planned_row}
use react_native_dblayer.Envelope.Prepare.{
  preview_input, accept, before_upsert, write_input, upsert_rows, push_upsert, prepare_upsert_op,
  write_patched, prepare_patch_op, count_on, prepare_counter_op, destroy_id, destroy_ids,
  push_destroy, prepare_destroy_op, prepare_scope_op, prepare_delta_op, prepare_operation,
  prepare_from, prepare_operations,
}
use react_native_dblayer.Envelope.Inputs.{
  Phase, op_model, effective, prepared_id, finite_number, plus,
}
use react_native_dblayer.Envelope.Replay.{
  after_rows, after_ids, after_op, after_ops, after_ids-append, IsTextOf, PreparesIds,
  text_of-prepared, effective-some, read-write, IsReplayOf, pushed-replay, IsAhead, accept-IsAhead,
  patched-replay,
}

module _ (text_of : Value → Str) (targets : Str → Option ApplyTarget) where
  counted-replay :
      (base : Str → Str → Option Row) (target : ApplyTarget) (ref : CounterRef) (delta : ℤ)
      (previous : Row) (phase : Phase)
      → IsReplayOf text_of targets base phase
      → IsReplayOf text_of targets base (count_on text_of targets target ref delta previous phase)
  unfolding count_on
  counted-replay base target ref delta previous phase h =
      elim (finite_number (read_field previous ref.field))
        as (λ value. IsReplayOf text_of targets base (elim value [
          | none ↦ phase
          | some n ↦
              write_patched text_of targets ref.model (some previous)
                (effective (
                  target.prepare_patch ref.id ((ref.field, num (int (plus n delta))) ∷ [])
                    (some previous) none none none))
                phase
        ])) [
          | none ↦ h
          | some n ↦ patched-replay text_of targets base ref.model (some previous) _ phase h
        ]

  counter-replay :
      (base : Str → Str → Option Row) (target : ApplyTarget) (ref : CounterRef) (delta : ℤ)
      (phase : Phase)
      → IsReplayOf text_of targets base phase
      → IsReplayOf text_of targets base (prepare_counter_op text_of targets target ref delta phase)
  unfolding prepare_counter_op
  counter-replay base target ref delta phase h =
      elim (read_planned_row targets phase.overlay ref.model ref.id)
        as (λ row. IsReplayOf text_of targets base (elim row [
          | none ↦ phase
          | some previous ↦ count_on text_of targets target ref delta previous phase
        ])) [ none ↦ h | some previous ↦ counted-replay base target ref delta previous phase h ]

  -- Ids of one destroy in the making.
  abbrev IsPast : (Str → Str → Option Row) → Str → List Str → Phase → Type 0
  IsPast base model ids phase =
      (m i : Str)
      → read_planned_row targets phase.overlay m i
        ≡ after_ids text_of m i model ids (after_ops text_of m i phase.ops (base m i))

  destroyed-IsPast :
      (base : Str → Str → Option Row) (op : Destroy) (id : Str) (row : Option Row) (ids : List Str)
      (phase : Phase)
      → IsPast base op.model ids phase
      → IsPast base op.model
          ((destroy_id text_of targets op id row ids phase).0)
          ((destroy_id text_of targets op id row ids phase).1)
  unfolding destroy_id after_ids
  destroyed-IsPast base op id none ids phase h m i = h m i
  destroyed-IsPast base op id (some row) ids phase h m i =
      read-write text_of targets phase.overlay op.model id none m i
      ∙ rw
          (
            after_ids-append text_of m i op.model ids (id ∷ [])
                (after_ops text_of m i phase.ops (base m i)),
            h m i,
          )
          refl

  either-IsPast :
      (base : Str → Str → Option Row) (model : Str) (b : Bool) (x y : List Str × Phase)
      → IsPast base model x.0 x.1
      → IsPast base model y.0 y.1
      → IsPast base model ((if b then x else y).0) ((if b then x else y).1)
  either-IsPast base model true x y h k = h
  either-IsPast base model false x y h k = k

  destroys-IsPast :
      (base : Str → Str → Option Row) (target : ApplyTarget) (op : Destroy) (more ids : List Str)
      (phase : Phase)
      → IsPast base op.model ids phase
      → IsPast base op.model
          ((destroy_ids text_of targets target op more ids phase).0)
          ((destroy_ids text_of targets target op more ids phase).1)
  unfolding destroy_ids
  destroys-IsPast base target op [] ids phase h = h
  destroys-IsPast base target op (id ∷ more) ids phase h = destroys-IsPast base target op more _ _ (
      either-IsPast base op.model (target.admit_destroy id op.base_revision) _ (ids, phase)
        (destroyed-IsPast base op id (read_planned_row targets phase.overlay op.model id) ids phase
          h)
        h)

  pushed_destroy-replay :
      (base : Str → Str → Option Row) (op : Destroy) (ids : List Str) (phase : Phase)
      → IsPast base op.model ids phase
      → IsReplayOf text_of targets base (push_destroy text_of targets op ids phase)
  unfolding push_destroy after_op after_ids
  pushed_destroy-replay base op [] phase h = h
  pushed_destroy-replay base op (id ∷ ids) phase h = pushed-replay text_of targets base _ phase h

  destroy-replay :
      (base : Str → Str → Option Row) (target : ApplyTarget) (op : Destroy) (phase : Phase)
      → IsReplayOf text_of targets base phase
      → IsReplayOf text_of targets base (prepare_destroy_op text_of targets target op phase)
  unfolding prepare_destroy_op after_ids
  destroy-replay base target op phase h =
      let marked = record phase {
        operation_transitions = phase.operation_transitions ++ op.operation_transitions;
      } in
      pushed_destroy-replay base op _ _ (destroys-IsPast base target op op.ids [] marked h)

  scope-replay :
      (base : Str → Str → Option Row) (target : ApplyTarget) (op : ScopeWrite) (phase : Phase)
      → IsReplayOf text_of targets base phase
      → IsReplayOf text_of targets base (prepare_scope_op text_of targets target op phase)
  unfolding prepare_scope_op after_op
  scope-replay base target op phase h = pushed-replay text_of targets base _ phase h

  delta-replay :
      (base : Str → Str → Option Row) (target : ApplyTarget) (op : ScopeDelta) (phase : Phase)
      → IsReplayOf text_of targets base phase
      → IsReplayOf text_of targets base (prepare_delta_op text_of targets target op phase)
  unfolding prepare_delta_op after_op
  delta-replay base target op phase h = pushed-replay text_of targets base _ phase h

  pushed_upsert-replay :
      (base : Str → Str → Option Row) (op : Upsert) (rows : List Row) (phase : Phase)
      → IsAhead text_of targets base op.model rows phase
      → IsReplayOf text_of targets base (push_upsert text_of targets op rows phase)
  unfolding push_upsert after_op after_rows
  pushed_upsert-replay base op [] phase h = h
  pushed_upsert-replay base op (row ∷ rows) phase h = pushed-replay text_of targets base _ phase h

  module _ (laws : IsTextOf text_of) (target : ApplyTarget) (ids : PreparesIds target) where
    -- One input is written, or throws nothing without a write.
    written-returns :
        (base : Str → Str → Option Row) (op : Upsert) (input : Value)
        (prepared : Option PreparedRowWrite) (rows : List Row) (phase : Phase)
        → ((p : PreparedRowWrite) → prepared ≡ some p → (id : Str) × (prepared_id p.row ≡ some id))
        → IsAhead text_of targets base op.model rows phase
        → (rows' : List Row) × (next : Phase) × (write_input text_of targets op input prepared rows
              phase
            ≡ some (rows', next))
          × IsAhead text_of targets base op.model rows' next
    unfolding write_input prepared_id
    written-returns base op input none rows phase has h = (rows, phase, refl, h)
    written-returns base op input (some p) rows phase has h =
        let (id, e) = has p refl in
        (
          rows ++ p.row ∷ [],
          accept text_of targets op.model id (before_upsert text_of targets op input phase.overlay)
              op.origin p phase,
          rw (e, write_input) refl,
          accept-IsAhead text_of targets base op.model id _ op.origin p rows phase
              (text_of-prepared text_of laws (read_field p.row (text "id")) id e) h,
        )

    upsert_rows-returns :
        (base : Str → Str → Option Row) (op : Upsert) (inputs : List Value) (rows : List Row)
        (phase : Phase)
        → IsAhead text_of targets base op.model rows phase
        → (rows' : List Row) × (next : Phase) × (upsert_rows text_of targets target op inputs rows
              phase
            ≡ some (rows', next))
          × IsAhead text_of targets base op.model rows' next
    unfolding upsert_rows preview_input
    upsert_rows-returns base op [] rows phase h = (rows, phase, refl, h)
    upsert_rows-returns base op (input ∷ inputs) rows phase h =
        let (rows', next, e, h') =
          written-returns base op input
            (preview_input text_of targets target op input phase.overlay) rows phase
            (λ p q.
              ids.upsert_id input _ op.origin _ op.operation_id op.base_revision p
                (effective-some _ p q))
            h in
        let (rows'', last, e', h'') = upsert_rows-returns base op inputs rows' next h' in
        (rows'', last, rw (e, upsert_rows) e', h'')

    prepare_operation-returns :
        (base : Str → Str → Option Row) (op : WriteOp) (phase : Phase)
        → IsReplayOf text_of targets base phase
        → (next : Phase) × (prepare_operation text_of targets target op phase ≡ some next)
          × IsReplayOf text_of targets base next
    unfolding prepare_operation prepare_upsert_op prepare_patch_op after_rows
    prepare_operation-returns base (upsert op) phase h =
        let (rows, next, e, ahead) = upsert_rows-returns base op op.rows [] phase h in
        (
          push_upsert text_of targets op rows next,
          rw (e, prepare_upsert_op) refl,
          pushed_upsert-replay base op rows next ahead,
        )
    prepare_operation-returns base (patch op) phase h = (
      prepare_patch_op text_of targets target op phase,
      refl,
      patched-replay text_of targets base op.model _ _ phase h,
    )
    prepare_operation-returns base (counter ref delta) phase h =
        (_, refl, counter-replay base target ref delta phase h)
    prepare_operation-returns base (destroy op) phase h =
        (_, refl, destroy-replay base target op phase h)
    prepare_operation-returns base (scope op) phase h =
        (_, refl, scope-replay base target op phase h)
    prepare_operation-returns base (scope_delta op) phase h =
        (_, refl, delta-replay base target op phase h)

  unfoldable pub has_target : WriteOp → Bool
  has_target op = elim (targets (op_model op)) [ none ↦ false | some _ ↦ true ]

  module _ (laws : IsTextOf text_of)
      (all_ids : (model : Str) (target : ApplyTarget)
        → targets model ≡ some target
        → PreparesIds target) where
    prepare_from-returns :
        (base : Str → Str → Option Row) (ops : List WriteOp) (phase : Phase)
        → every has_target ops ≡ true
        → IsReplayOf text_of targets base phase
        → (next : Phase) × (prepare_from text_of targets ops phase ≡ some next)
          × IsReplayOf text_of targets base next
    unfolding prepare_from every has_target
    prepare_from-returns base [] phase t h = (phase, refl, h)
    prepare_from-returns base (op ∷ ops) phase t h = elim (Option-cases (targets (op_model op))) [
      | inl n ↦ absurd (ground arith)
      | inr (target, e) ↦
          let (next, e', h') =
            prepare_operation-returns laws target (all_ids (op_model op) target e) base op phase
              h in
          let (last, e'', h'') = prepare_from-returns base ops next (ground arith) h' in
          (last, rw (e, prepare_from) (rw e' e''), h'')
    ]

    -- Where every operation's model has a target, and the targets prepare rows with text ids, the
    -- operations compile, and to operations that do what was planned: for every model and id, the
    -- row that the plan reads after them is what the compiled operations, applied in their order
    -- to the row read before, leave there.
    pub prepare_operations-replay :
        (ops : List WriteOp) (overlay : Overlay)
        → every has_target ops ≡ true
        → (phase : Phase) × (prepare_operations text_of targets ops overlay ≡ some phase)
          × IsReplayOf text_of targets (read_planned_row targets overlay) phase
    unfolding prepare_operations after_ops
    prepare_operations-replay ops overlay t =
        prepare_from-returns (read_planned_row targets overlay) ops _ t (λ m i. refl)
