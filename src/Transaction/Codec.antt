-- ===== src/Transaction/Codec.antt =====
-- The round trip of a delta of src/core/apply/deltaLog.ts.
use react_native_dblayer.Base.{
  ℕ, true, Option, some, List, [], ◌∷◌, ◌≡◌, refl, ap, arith, leb, every, map,
}
use react_native_dblayer.Base.Str.{Str, str_eq}
use react_native_dblayer.Base.StrMap
use react_native_dblayer.Base.Value.{Value, entries}
use react_native_dblayer.CompositeKey.{max_safe_integer}
use react_native_dblayer.Where.Filter.{read_field, same_number}
use react_native_dblayer.Envelope.Types.{AppliedOp, upsert, destroy, scope, scope_delta}
use react_native_dblayer.Transaction.OpValue.{op_value}
use react_native_dblayer.Transaction.DeltaLog.{
  items_of, values_of, delta_value, encode_delta, decode_delta, decode_value, by_version,
  delta_of_shape, safe_natural, decoded, is_delta_op, is_kind, is_text,
}

values_of-items_of : (values : List Value) → values_of (items_of values) ≡ values
unfolding values_of items_of
values_of-items_of [] = refl
values_of-items_of (value ∷ values) = ap (◌∷◌ value) (values_of-items_of values)

op_value-is_delta_op : (op : AppliedOp) → is_delta_op (op_value op) ≡ true
unfolding op_value is_delta_op is_kind is_text read_field entries StrMap.get str_eq
op_value-is_delta_op (upsert op) = refl
op_value-is_delta_op (destroy op) = refl
op_value-is_delta_op (scope op) = refl
op_value-is_delta_op (scope_delta op) = refl

op_values-pass : (ops : List AppliedOp) → every is_delta_op (map op_value ops) ≡ true
unfolding every
op_values-pass [] = refl
op_values-pass (op ∷ ops) = ground (arith, op_value-is_delta_op op, op_values-pass ops)

-- A delta of applied operations of any kind, with a safe number, is read back as it was written:
-- neither as stale nor as corrupt, with its number and the JSON values of all its operations in
-- their order, where parsing its text gives the value that was made into text.
pub decode_delta-encode_delta :
    (stringify : Value → Str) (parse : Str → Option Value) (seq : ℕ) (ops : List AppliedOp)
    → (let value = delta_value seq (map op_value ops) in parse (stringify value) ≡ some value)
    → leb seq max_safe_integer ≡ true
    → decode_delta parse (encode_delta stringify seq (map op_value ops))
      ≡ decoded record { seq = seq; ops = map op_value ops }
unfolding decode_delta encode_delta delta_value decode_value by_version delta_of_shape safe_natural
    read_field entries StrMap.get str_eq same_number
decode_delta-encode_delta stringify parse seq ops back safe =
    rw (back, safe, values_of-items_of (map op_value ops), op_values-pass ops) refl
