-- ===== src/Envelope/Replay.antt =====
-- The plan of src/core/apply/commitEnvelope.ts against the operations that it compiles: reading a
-- planned row is reading what the compiled operations leave.
use react_native_dblayer.Base.{
  ℕ, false, ◌&&◌, Option, none, some, List, [], ◌∷◌, ◌++◌, ◌≡◌, refl, sym, ◌∙◌, arith,
  if◌then◌else◌,
}
use react_native_dblayer.Base.Str.{Str, str_eq, text}
use react_native_dblayer.Base.Value.{Value, str, undefined, null, bool, num, date, arr, obj}
use react_native_dblayer.Where.Filter.{Row, read_field}
use react_native_dblayer.Envelope.Types.{
  RowOrigin, upsert, destroy, scope, scope_delta, AppliedOp, PreparedRowWrite, ApplyTarget,
}
use react_native_dblayer.Envelope.Overlay.{
  Overlay, write_planned_row, read_planned_row, overlaid-write,
}
use react_native_dblayer.Envelope.Prepare.{accept, push_op, write_patched}
use react_native_dblayer.Envelope.Inputs.{Phase, effective, prepared_id, non_empty_id}

-- What the applied operations make of one row.
module _ (text_of : Value → Str) (model id : Str) where
  unfoldable pub after_rows : Str → List Row → Option Row → Option Row
  after_rows m [] value = value
  after_rows m (row ∷ rows) value = after_rows m rows (
      if str_eq m model && str_eq (text_of (read_field row (text "id"))) id
      then some row
      else value)

  unfoldable pub after_ids : Str → List Str → Option Row → Option Row
  after_ids m [] value = value
  after_ids m (i ∷ ids) value =
      after_ids m ids (if str_eq m model && str_eq i id then none else value)

  unfoldable pub after_op : AppliedOp → Option Row → Option Row
  after_op (upsert op) value = after_rows op.model op.rows value
  after_op (destroy op) value = after_ids op.model op.ids value
  after_op (scope op) value = value
  after_op (scope_delta op) value = value

  unfoldable pub after_ops : List AppliedOp → Option Row → Option Row
  after_ops [] value = value
  after_ops (op ∷ ops) value = after_ops ops (after_op op value)

  pub after_rows-append :
      (m : Str) (xs ys : List Row) (value : Option Row)
      → after_rows m (xs ++ ys) value ≡ after_rows m ys (after_rows m xs value)
  unfolding after_rows
  after_rows-append m [] ys value = refl
  after_rows-append m (x ∷ xs) ys value = after_rows-append m xs ys _

  pub after_ids-append :
      (m : Str) (xs ys : List Str) (value : Option Row)
      → after_ids m (xs ++ ys) value ≡ after_ids m ys (after_ids m xs value)
  unfolding after_ids
  after_ids-append m [] ys value = refl
  after_ids-append m (x ∷ xs) ys value = after_ids-append m xs ys _

  pub after_ops-append :
      (xs ys : List AppliedOp) (value : Option Row)
      → after_ops (xs ++ ys) value ≡ after_ops ys (after_ops xs value)
  unfolding after_ops
  after_ops-append [] ys value = refl
  after_ops-append (x ∷ xs) ys value = after_ops-append xs ys _

-- `String(text)` is the text.
pub record IsTextOf (text_of : Value → Str) : Type 0 where
  pub of_str : (s : Str) → text_of (str s) ≡ s

-- A target prepares rows with text ids.
pub record PreparesIds (target : ApplyTarget) : Type 0 where
  pub upsert_id :
      (input : Value) (previous : Option Row) (origin : Option RowOrigin) (base : Option Row)
      (operation_id : Option Str) (revision : Option ℕ) (prepared : PreparedRowWrite)
      → target.prepare_upsert input previous origin base operation_id revision ≡ some prepared
      → (id : Str) × (prepared_id prepared.row ≡ some id)

pub text_of-prepared :
    (text_of : Value → Str) (laws : IsTextOf text_of) (value : Value) (id : Str)
    → non_empty_id value ≡ some id
    → text_of value ≡ id
unfolding non_empty_id
text_of-prepared text_of laws (str (c ∷ s)) id h = laws.of_str (c ∷ s) ∙ ground arith
text_of-prepared text_of laws (str []) id h = absurd (ground arith)
text_of-prepared text_of laws undefined id h = absurd (ground arith)
text_of-prepared text_of laws null id h = absurd (ground arith)
text_of-prepared text_of laws (bool b) id h = absurd (ground arith)
text_of-prepared text_of laws (num n) id h = absurd (ground arith)
text_of-prepared text_of laws (date d) id h = absurd (ground arith)
text_of-prepared text_of laws (arr x) id h = absurd (ground arith)
text_of-prepared text_of laws (obj x) id h = absurd (ground arith)

pub effective-some :
    (p : Option PreparedRowWrite) (prepared : PreparedRowWrite)
    → effective p ≡ some prepared
    → p ≡ some prepared
unfolding effective
effective-some none prepared h = absurd (ground arith)
effective-some (some p) prepared h = ground arith

module _ (text_of : Value → Str) (targets : Str → Option ApplyTarget) where
  pub read-write :
      (overlay : Overlay) (model id : Str) (row : Option Row) (m i : Str)
      → read_planned_row targets (write_planned_row overlay model id row) m i
        ≡ (if str_eq model m && str_eq id i then row else read_planned_row targets overlay m i)
  unfolding read_planned_row
  read-write overlay model id row m i = ground (arith, overlaid-write overlay model id row m i)

  -- The overlay reads what the compiled operations make of the rows read before them.
  abbrev pub IsReplayOf : (Str → Str → Option Row) → Phase → Type 0
  IsReplayOf base phase =
      (m i : Str)
      → read_planned_row targets phase.overlay m i ≡ after_ops text_of m i phase.ops (base m i)

  pub pushed-replay :
      (base : Str → Str → Option Row) (op : AppliedOp) (phase : Phase)
      → ((m i : Str)
          → read_planned_row targets phase.overlay m i
            ≡ after_op text_of m i op (after_ops text_of m i phase.ops (base m i)))
      → IsReplayOf base (push_op text_of targets op phase)
  unfolding push_op after_ops
  pushed-replay base op phase h m i =
      h m i ∙ sym (after_ops-append text_of m i phase.ops (op ∷ []) (base m i))

  -- Rows of one operation in the making: the overlay is ahead of the operations by these rows.
  abbrev pub IsAhead : (Str → Str → Option Row) → Str → List Row → Phase → Type 0
  IsAhead base model rows phase =
      (m i : Str)
      → read_planned_row targets phase.overlay m i
        ≡ after_rows text_of m i model rows (after_ops text_of m i phase.ops (base m i))

  pub accept-IsAhead :
      (base : Str → Str → Option Row) (model id : Str) (before : Option Row)
      (origin : Option RowOrigin) (prepared : PreparedRowWrite) (rows : List Row) (phase : Phase)
      → text_of (read_field prepared.row (text "id")) ≡ id
      → IsAhead base model rows phase
      → IsAhead base model
          (rows ++ prepared.row ∷ [])
          (accept text_of targets model id before origin prepared phase)
  unfolding accept after_rows
  accept-IsAhead base model id before origin prepared rows phase e h m i =
      let one =
        after_rows-append text_of m i model rows (prepared.row ∷ [])
          (after_ops text_of m i phase.ops (base m i)) in
      read-write phase.overlay model id (some prepared.row) m i ∙ rw (one, e, h m i) refl

  pub patched-replay :
      (base : Str → Str → Option Row) (model : Str) (before : Option Row)
      (prepared : Option PreparedRowWrite) (phase : Phase)
      → IsReplayOf base phase
      → IsReplayOf base (write_patched text_of targets model before prepared phase)
  unfolding write_patched accept push_op after_ops after_op after_rows
  patched-replay base model before none phase h m i = h m i
  patched-replay base model before (some p) phase h m i =
      read-write phase.overlay model (text_of (read_field p.row (text "id"))) (some p.row) m i
      ∙ rw
          (
            after_ops-append text_of m i phase.ops
                (upsert record { model = model; rows = p.row ∷ []; is_replace = false } ∷ [])
                (base m i),
            h m i,
          )
          refl
