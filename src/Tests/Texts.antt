-- ===== src/Tests/Texts.antt =====
-- A text codec of JSON values for the tests of the delta log: each value in prefix form, a length
-- before each text.
use react_native_dblayer.Base.{ℕ, zero, suc, true, false, Option, some, [], ◌∷◌, ◌++◌, length}
use react_native_dblayer.Base.Str.{Str}
use react_native_dblayer.Base.Value.{
  pos, int, Value, null, bool, num, str, arr, obj, Items, nil, cons, Fields, done, field,
}

abbrev prefixed : Str → Str
prefixed s = length s ∷ s

unfoldable mutual
  pub write_value : Value → Str
  write_value (bool false) = 1 ∷ []
  write_value (bool true) = 2 ∷ []
  write_value (num (int (pos n))) = 3 ∷ n ∷ []
  write_value (str s) = 4 ∷ prefixed s
  write_value (arr items) = 5 ∷ write_items items
  write_value (obj fields) = 6 ∷ write_fields fields
  write_value _ = 0 ∷ []

  pub write_items : Items → Str
  write_items nil = 0 ∷ []
  write_items (cons value items) = 1 ∷ (write_value value ++ write_items items)

  pub write_fields : Fields → Str
  write_fields done = 0 ∷ []
  write_fields (field k value fields) =
      1 ∷ (prefixed k ++ (write_value value ++ write_fields fields))

unfoldable pub cut_text : ℕ → Str → Str × Str
cut_text zero s = ([], s)
cut_text (suc n) [] = ([], [])
cut_text (suc n) (c ∷ s) = let (head, rest) = cut_text n s in (c ∷ head, rest)

unfoldable pub read_text : Str → Str × Str
unfolding cut_text
read_text [] = ([], [])
read_text (n ∷ s) = cut_text n s

-- The readers, on fuel; what they cannot read is null or the end.
unfoldable mutual
  pub read_value : ℕ → Str → Value × Str
  read_value zero s = (null, s)
  read_value (suc fuel) (suc zero ∷ s) = (bool false, s)
  read_value (suc fuel) (suc (suc zero) ∷ s) = (bool true, s)
  read_value (suc fuel) (suc (suc (suc zero)) ∷ n ∷ s) = (num (int (pos n)), s)
  read_value (suc fuel) (suc (suc (suc (suc zero))) ∷ s) =
      let (head, rest) = read_text s in (str head, rest)
  read_value (suc fuel) (suc (suc (suc (suc (suc zero)))) ∷ s) =
      let (items, rest) = read_items fuel s in (arr items, rest)
  read_value (suc fuel) (suc (suc (suc (suc (suc (suc zero))))) ∷ s) =
      let (fields, rest) = read_fields fuel s in (obj fields, rest)
  read_value (suc fuel) s = (null, s)

  pub read_items : ℕ → Str → Items × Str
  read_items zero s = (nil, s)
  read_items (suc fuel) (suc zero ∷ s) =
      let (value, more) = read_value fuel s in
      let (items, rest) = read_items fuel more in (cons value items, rest)
  read_items (suc fuel) (c ∷ s) = (nil, s)
  read_items (suc fuel) [] = (nil, [])

  pub read_fields : ℕ → Str → Fields × Str
  read_fields zero s = (done, s)
  read_fields (suc fuel) (suc zero ∷ s) =
      let (k, more) = read_text s in
      let (value, others) = read_value fuel more in
      let (fields, rest) = read_fields fuel others in (field k value fields, rest)
  read_fields (suc fuel) (c ∷ s) = (done, s)
  read_fields (suc fuel) [] = (done, [])

abbrev pub parse_text : Str → Option Value
parse_text s = some (read_value 40 s).0
