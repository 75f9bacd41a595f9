-- ===== src/WritePolicies/Fields.antt =====
-- What the write gate of src/core/writePolicies.ts does to one field.
use react_native_dblayer.Base.{
  Bool, true, false, ◌&&◌, ◌||◌, not, Option, none, some, List, [], ◌∷◌, if◌then◌else◌, ◌≡◌, refl,
  arith, inl, inr, Option-cases,
}
use react_native_dblayer.Base.Str.{Str, str_eq, str_eq_iff}
use react_native_dblayer.Base.StrMap
use react_native_dblayer.Base.StrMap.{StrMap}
use react_native_dblayer.Base.Value.{Value}
use react_native_dblayer.Where.Filter.{Row, read_field}
use react_native_dblayer.WritePolicies.Types.{
  WriteOrigin, patch, WritePolicy, server, local, continuity, snapshot_fold, monotonic, keys,
  MonotonicSpec,
}
use react_native_dblayer.WritePolicies.Codecs.{Builtins, is_nullish}
use react_native_dblayer.WritePolicies.Monotonic.{accepts_monotonic}
use react_native_dblayer.WritePolicies.Apply.{
  origin_eq, applies_monotonic, apply_nested_keys, fold_snapshot, restore_field, rewrite_field,
  restore_nullish, each_field, apply_policy,
}

-- The field is one of the names.
unfoldable pub has_name : Str → List Str → Bool
has_name j [] = false
has_name j (k ∷ ks) = str_eq k j || has_name j ks

unfoldable pub are_distinct : List Str → Bool
are_distinct [] = true
are_distinct (k ∷ ks) = not (has_name k ks) && are_distinct ks

restored :
    (previous : Row) (k : Str) (row : Row) (j : Str)
    → StrMap.get j (restore_field previous k row)
      ≡ (if str_eq k j then StrMap.get j previous else StrMap.get j row)
unfolding restore_field
restored previous k row j = elim (Option-cases (StrMap.get k previous)) [
  | inl n ↦ ground (arith, StrMap.get-delete k j row, str_eq_iff k j)
  | inr (v, e) ↦ ground (arith, StrMap.get-set k j v row, str_eq_iff k j)
]

abbrev mapped : (Value → Value) → Option Value → Option Value
mapped f none = none
mapped f (some value) = some (f value)

rewritten :
    (f : Value → Value) (k : Str) (row : Row) (j : Str)
    → StrMap.get j (rewrite_field f k row)
      ≡ (if str_eq k j then mapped f (StrMap.get j row) else StrMap.get j row)
unfolding rewrite_field
rewritten f k row j = elim (Option-cases (StrMap.get k row)) [
  | inl n ↦ ground (arith, str_eq_iff k j)
  | inr (v, e) ↦ ground (arith, StrMap.get-set k j (f v) row, str_eq_iff k j)
]

abbrev kept_unless_nullish : Option Value → Option Value → Option Value
kept_unless_nullish previous none = none
kept_unless_nullish previous (some value) = if is_nullish value then previous else some value

nullish_restored :
    (previous : Row) (k : Str) (row : Row) (j : Str)
    → StrMap.get j (restore_nullish previous k row) ≡ (
        if str_eq k j
        then kept_unless_nullish (StrMap.get j previous) (StrMap.get j row)
        else StrMap.get j row)
unfolding restore_nullish
nullish_restored previous k row j = ground (arith, restored previous k row j, str_eq_iff k j)

each_field-get :
    (step : Str → Row → Row) (f : Str → Option Value → Option Value)
    (one : (k : Str) (row : Row) (j : Str)
      → StrMap.get j (step k row)
        ≡ (if str_eq k j then f j (StrMap.get j row) else StrMap.get j row))
    (names : List Str) (row : Row) (j : Str)
    → are_distinct names ≡ true
    → StrMap.get j (each_field step names row)
      ≡ (if has_name j names then f j (StrMap.get j row) else StrMap.get j row)
unfolding each_field has_name are_distinct
each_field-get step f one [] row j h = refl
each_field-get step f one (k ∷ ks) row j h =
    ground (arith, one k row j, each_field-get step f one ks (step k row) j, str_eq_iff k j)

-- The value of a missing field.
abbrev value_of : Option Value → Value
value_of none = Value.undefined
value_of (some value) = value

read_field-value_of : (row : Row) (j : Str) → read_field row j ≡ value_of (StrMap.get j row)
unfolding read_field
read_field-value_of row j = ground arith

-- Whether a monotonic policy lets the write through.
unfoldable pub lets_through :
    Builtins → MonotonicSpec → Option (List WriteOrigin) → List Str → Row → WriteOrigin → Row → Bool
lets_through js spec on fields previous origin effective =
    not (applies_monotonic on origin) || accepts_monotonic js spec fields effective previous

-- What a policy makes of one field of its group, from the previous and the effective value.
unfoldable pub settle :
    Builtins → WritePolicy → List Str → Row → WriteOrigin → Row → Str → Option Value → Option Value
unfolding lets_through
settle js server fields previous origin effective j current = current
settle js local fields previous origin effective j current =
    if origin_eq origin patch then current else StrMap.get j previous
settle js continuity fields previous origin effective j current =
    kept_unless_nullish (StrMap.get j previous) current
settle js snapshot_fold fields previous origin effective j current =
    mapped (fold_snapshot (read_field previous j)) current
settle js (keys policies rest) fields previous origin effective j current =
    mapped (apply_nested_keys js policies rest (read_field previous j)) current
settle js (monotonic spec on) fields previous origin effective j current =
    if lets_through js spec on fields previous origin effective
    then current
    else StrMap.get j previous

rewritten_at :
    (f : Str → Value → Value) (k : Str) (row : Row) (j : Str)
    → StrMap.get j (rewrite_field (f k) k row)
      ≡ (if str_eq k j then mapped (f j) (StrMap.get j row) else StrMap.get j row)
rewritten_at f k row j = ground (arith, rewritten (f k) k row j, str_eq_iff k j)

-- On a group of distinct fields, the loops of `applyPolicy` settle each field of the group by
-- itself, from its previous and its effective value, and leave every other field as it is.
pub apply_policy-settle :
    (js : Builtins) (policy : WritePolicy) (fields : List Str) (previous : Row)
    (origin : WriteOrigin) (effective : Row) (j : Str)
    → are_distinct fields ≡ true
    → StrMap.get j (apply_policy js policy fields previous origin effective) ≡ (
        if has_name j fields
        then settle js policy fields previous origin effective j (StrMap.get j effective)
        else StrMap.get j effective)
unfolding apply_policy settle lets_through
apply_policy-settle js server fields previous origin effective j h = ground arith
apply_policy-settle js local fields previous origin effective j h = ground (
  arith,
  each_field-get (restore_field previous) (λ i v. StrMap.get i previous) (restored previous) fields
      effective j h,
)
apply_policy-settle js continuity fields previous origin effective j h =
    each_field-get (restore_nullish previous) (λ i v. kept_unless_nullish (StrMap.get i previous) v)
      (nullish_restored previous) fields effective j h
apply_policy-settle js snapshot_fold fields previous origin effective j h =
    each_field-get (λ name. rewrite_field (fold_snapshot (read_field previous name)) name)
      (λ i v. mapped (fold_snapshot (read_field previous i)) v)
      (rewritten_at (λ i. fold_snapshot (read_field previous i))) fields effective j h
apply_policy-settle js (keys policies rest) fields previous origin effective j h =
    each_field-get
      (λ name. rewrite_field (apply_nested_keys js policies rest (read_field previous name)) name)
      (λ i v. mapped (apply_nested_keys js policies rest (read_field previous i)) v)
      (rewritten_at (λ i. apply_nested_keys js policies rest (read_field previous i))) fields
      effective j h
apply_policy-settle js (monotonic spec on) fields previous origin effective j h = ground (
  arith,
  each_field-get (restore_field previous) (λ i v. StrMap.get i previous) (restored previous) fields
      effective j h,
)
