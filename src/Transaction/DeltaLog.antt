-- ===== src/Transaction/DeltaLog.antt =====
-- src/core/apply/deltaLog.ts: the keys of deltas and markers, the codec of a delta, the reading of
-- the log with its cut, and the highest number on disk. `JSON.stringify`, `JSON.parse` and `Number`
-- are parameters; an applied operation is its JSON value.
use react_native_dblayer.Base.{
  ℕ, zero, suc, ◌-◌, Bool, true, false, ◌&&◌, ◌||◌, Option, none, some, List, [], ◌∷◌, ◌++◌,
  if◌then◌else◌, leb, every, keep, length, ◌==◌,
}
use react_native_dblayer.Base.Str.{Str, str_eq, str_lt, text}
use react_native_dblayer.Base.StrMap
use react_native_dblayer.Base.StrMap.{StrMap}
use react_native_dblayer.Base.Value.{
  pos, Number, int, Value, num, str, arr, obj, Items, nil, cons, done, field, entries,
}
use react_native_dblayer.CompositeKey.{decimal, max_safe_integer}
use react_native_dblayer.Where.Filter.{read_field, same_number}

-- The storage plane: its keys and their texts.
abbrev pub Storage : Type 0
Storage = StrMap Str

zeros : ℕ → Str
zeros zero = []
zeros (suc n) = 48 ∷ zeros n

-- `padStart(SEQ_WIDTH, '0')`
pad_start : Str → Str
unfolding zeros
pad_start s = zeros (12 - length s) ++ s

-- `deltaKey`
unfoldable pub delta_key : Str → ℕ → Str
unfolding pad_start
delta_key prefix seq = prefix ++ (text "delta:" ++ pad_start (decimal seq))

-- `snapseqKey`
unfoldable pub snapseq_key : Str → Str → Str
snapseq_key prefix model = prefix ++ (text "snapseq:" ++ model)

unfoldable pub starts_with : Str → Str → Bool
starts_with [] s = true
starts_with (c ∷ p) [] = false
starts_with (c ∷ p) (d ∷ s) = c == d && starts_with p s

unfoldable pub items_of : List Value → Items
items_of [] = nil
items_of (value ∷ values) = cons value (items_of values)

unfoldable pub values_of : Items → List Value
values_of nil = []
values_of (cons value items) = value ∷ values_of items

unfoldable pub delta_value : ℕ → List Value → Value
unfolding items_of
delta_value seq ops = obj (
    field (text "recordVersion") (num (int (pos 1)))
      (field (text "seq") (num (int (pos seq))) (field (text "ops") (arr (items_of ops)) done)))

-- `encodeDelta`
unfoldable pub encode_delta : (Value → Str) → ℕ → List Value → Str
unfolding delta_value
encode_delta stringify seq ops = stringify (delta_value seq ops)

pub record DecodedDelta : Type 0 where
  pub seq : ℕ
  pub ops : List Value

pub data Decoded : Type 0 where
  decoded : DecodedDelta → Decoded
  stale corrupt : Decoded

unfoldable pub is_kind : Value → Bool
is_kind (str kind) =
    str_eq kind (text "upsert")
    || (str_eq kind (text "destroy")
        || (str_eq kind (text "scope") || str_eq kind (text "scope-delta")))
is_kind _ = false

unfoldable pub is_text : Value → Bool
is_text (str s) = true
is_text _ = false

-- `isDeltaOp`, on JSON values.
unfoldable pub is_delta_op : Value → Bool
is_delta_op (obj fields) =
    is_kind (read_field (entries fields) (text "kind"))
    && is_text (read_field (entries fields) (text "model"))
is_delta_op _ = false

unfoldable pub safe_natural : Value → Option ℕ
safe_natural (num (int (pos n))) = if leb n max_safe_integer then some n else none
safe_natural _ = none

unfoldable pub delta_of_shape : Option ℕ → Value → Decoded
unfolding values_of
delta_of_shape (some seq) (arr items) =
    if every is_delta_op (values_of items)
    then decoded record { seq = seq; ops = values_of items }
    else corrupt
delta_of_shape _ _ = corrupt

-- The version gate, then the shape gate.
unfoldable pub by_version : Value → StrMap Value → Decoded
unfolding safe_natural delta_of_shape
by_version (num version) fields =
    if same_number version (int (pos 1))
    then delta_of_shape (safe_natural (read_field fields (text "seq")))
        (read_field fields (text "ops"))
    else stale
by_version _ fields = corrupt

unfoldable pub decode_value : Option Value → Decoded
unfolding by_version
decode_value (some (obj fields)) =
    by_version (read_field (entries fields) (text "recordVersion")) (entries fields)
decode_value _ = corrupt

-- `decodeDelta`; `parse` gives none where JSON.parse throws.
unfoldable pub decode_delta : (Str → Option Value) → Str → Decoded
unfolding decode_value
decode_delta parse raw = decode_value (parse raw)

unfoldable pub safe_integer : Number → Option ℕ
safe_integer (int (pos n)) = if leb n max_safe_integer then some n else none
safe_integer _ = none

-- `readSnapseq`; `none` is -1.
unfoldable pub read_snapseq : (Str → Number) → Storage → Str → Str → Option ℕ
unfolding safe_integer
read_snapseq number_of storage prefix model = elim (StrMap.get (snapseq_key prefix model) storage) [
  | none ↦ none
  | some raw ↦ safe_integer (number_of raw)
]

unfoldable pub insert_key : Str → List Str → List Str
insert_key key [] = key ∷ []
insert_key key (k ∷ ks) =
    let rest = insert_key key ks in if str_lt k key then k ∷ rest else key ∷ k ∷ ks

unfoldable pub sort_keys : List Str → List Str
unfolding insert_key
sort_keys [] = []
sort_keys (k ∷ ks) = insert_key k (sort_keys ks)

-- `storage.keys(prefix)`
unfoldable pub keys_with : Str → Storage → List Str
keys_with prefix storage = keep (starts_with prefix) (StrMap.keys storage)

unfoldable pub delete_keys : List Str → Storage → Storage
delete_keys [] storage = storage
delete_keys (key ∷ keys) storage = delete_keys keys (StrMap.delete key storage)

-- What reading the log gives: the deltas, the storage after it, and the keys of a cut.
pub record DeltaLog : Type 0 where
  pub deltas : List DecodedDelta
  pub storage : Storage
  pub lost : List Str

module _ (parse : Str → Option Value) where
  unfoldable pub decode_at : Storage → Str → Decoded
  decode_at storage key = elim (StrMap.get key storage) [
    | none ↦ corrupt
    | some raw ↦ decode_delta parse raw
  ]

  unfoldable pub cut_at : Str → List Str → List DecodedDelta → Storage → Bool → DeltaLog
  cut_at prefix cut deltas storage counts =
      let kept = delete_keys cut storage in
      record {
        deltas = deltas;
        storage = delete_keys (keys_with (prefix ++ text "query") kept) kept;
        lost = if counts then cut else [];
      }

  -- The loop of `readDeltaLog` over the sorted keys.
  unfoldable pub read_deltas : Str → List Str → List DecodedDelta → Storage → DeltaLog
  unfolding decode_at cut_at
  read_deltas prefix [] deltas storage = record { deltas = deltas; storage = storage; lost = [] }
  read_deltas prefix (key ∷ keys) deltas storage =
      let rest : DecodedDelta → DeltaLog =
        λ delta. read_deltas prefix keys (deltas ++ delta ∷ []) storage in
      elim (decode_at storage key) [
        | decoded delta ↦ rest delta
        | stale ↦ cut_at prefix (key ∷ keys) deltas storage false
        | corrupt ↦ cut_at prefix (key ∷ keys) deltas storage true
      ]

  -- `readDeltaLog`
  unfoldable pub read_delta_log : Str → Storage → DeltaLog
  unfolding sort_keys
  read_delta_log prefix storage =
      read_deltas prefix (sort_keys (keys_with (prefix ++ text "delta:") storage)) [] storage
