-- ===== src/Envelope/Inputs.antt =====
-- What `prepareOperations` of src/core/apply/commitEnvelope.ts reads of its inputs and its previews.
use react_native_dblayer.Base.{
  suc, ◌+◌, ◌-◌, ltb, Bool, true, false, Option, none, some, List, [], ◌∷◌, if◌then◌else◌,
}
use react_native_dblayer.Base.Str.{Str, text}
use react_native_dblayer.Base.StrMap
use react_native_dblayer.Base.StrMap.{StrMap}
use react_native_dblayer.Base.Value.{ℤ, pos, negsuc, int, Value, num, str, obj, entries}
use react_native_dblayer.Where.Filter.{Row, read_field}
use react_native_dblayer.Ledger.Types.{OperationTransition}
use react_native_dblayer.Scope.Entry.{ScopeEntry, IncomingScopeRow}
use react_native_dblayer.Envelope.Types.{
  RowOrigin, replace, WriteOp, upsert, patch, destroy, scope, scope_delta, counter, AppliedOp,
  AcceptedRow, DestroyedRow, PreparedRowWrite,
}
use react_native_dblayer.Envelope.Overlay.{Overlay}

-- The overlay and the four results.
pub record Phase : Type 0 where
  pub overlay : Overlay
  pub ops : List AppliedOp
  pub accepted : List AcceptedRow
  pub destroyed : List DestroyedRow
  pub operation_transitions : List OperationTransition

abbrev pub op_model : WriteOp → Str
op_model (upsert op) = op.model
op_model (patch op) = op.model
op_model (destroy op) = op.model
op_model (scope op) = op.model
op_model (scope_delta op) = op.model
op_model (counter ref delta) = ref.model

abbrev pub is_replace_origin : Option RowOrigin → Bool
is_replace_origin (some replace) = true
is_replace_origin _ = false

-- The id of an input, empty where it has none.
unfoldable pub input_id : (Value → Str) → Value → Str
input_id text_of (obj fields) = elim (StrMap.get (text "id") (entries fields)) [
  | none ↦ []
  | some id ↦ text_of id
]
input_id text_of _ = []

-- The merge base of a replace. It is a record where it is an object.
unfoldable pub merge_base_of : Option RowOrigin → Option Value → Option Row
merge_base_of (some replace) (some (obj fields)) = some (entries fields)
merge_base_of _ _ = none

-- A preview that writes: not refused and not without a change.
unfoldable pub effective : Option PreparedRowWrite → Option PreparedRowWrite
effective none = none
effective (some prepared) = elim prepared.changed_fields [
  | none ↦ some prepared
  | some fields ↦ elim fields [ [] ↦ none | _ ∷ _ ↦ some prepared ]
]

unfoldable pub non_empty_id : Value → Option Str
non_empty_id (str (c ∷ s)) = some (c ∷ s)
non_empty_id _ = none

-- The id of a prepared row, `none` where the code throws.
unfoldable pub prepared_id : Row → Option Str
unfolding non_empty_id
prepared_id row = non_empty_id (read_field row (text "id"))

unfoldable pub finite_number : Value → Option ℤ
finite_number (num (int n)) = some n
finite_number _ = none

-- A sum of counters, which stay safe integers.
unfoldable pub plus : ℤ → ℤ → ℤ
plus (pos a) (pos b) = pos (a + b)
plus (pos a) (negsuc b) = if ltb b a then pos (a - suc b) else negsuc (b - a)
plus (negsuc a) (pos b) = if ltb a b then pos (b - suc a) else negsuc (a - b)
plus (negsuc a) (negsuc b) = negsuc (suc (a + b))

unfoldable pub placed_keys : List ScopeEntry → StrMap Str → StrMap Str
placed_keys [] placed = placed
placed_keys (entry ∷ entries) placed =
    placed_keys entries (StrMap.set entry.id entry.order_key placed)

unfoldable pub keyless_ids : List IncomingScopeRow → List Str
keyless_ids [] = []
keyless_ids (entry ∷ entries) =
    let rest = keyless_ids entries in
    elim entry.order_key [ none ↦ entry.id ∷ rest | some _ ↦ rest ]

-- The appended entries with their own keys or their placements.
unfoldable pub place_entries : StrMap Str → List IncomingScopeRow → List IncomingScopeRow
place_entries placed [] = []
place_entries placed (entry ∷ entries) =
    record {
      id = entry.id;
      order_key = elim entry.order_key [ none ↦ StrMap.get entry.id placed | some key ↦ some key ];
    }
    ∷ place_entries placed entries
