-- ===== src/WritePolicies/Apply.antt =====
-- `compileWritePolicies` of src/core/writePolicies.ts.
use react_native_dblayer.Base.{
  zero, suc, Bool, true, false, ◌&&◌, ◌||◌, not, Option, none, some, List, [], ◌∷◌, if◌then◌else◌,
  any,
}
use react_native_dblayer.Base.Str.{Str}
use react_native_dblayer.Base.StrMap
use react_native_dblayer.Base.StrMap.{StrMap}
use react_native_dblayer.Base.Value.{
  ℤ, pos, negsuc, Value, undefined, obj, Fields, done, field, entries,
}
use react_native_dblayer.Where.Filter.{Row, read_field}
use react_native_dblayer.WritePolicies.Types.{
  WriteOrigin, snapshot, event, replace, patch, NestedKeyPolicy, server_key, continuity_key,
  non_empty_key, positive_key, WritePolicy, server, local, continuity, snapshot_fold, monotonic,
  keys, WriteGroup,
}
use react_native_dblayer.WritePolicies.Codecs.{
  Builtins, read_number, is_nullish, is_present_value, record_of,
}
use react_native_dblayer.WritePolicies.Monotonic.{accepts_monotonic}

abbrev pub origin_eq : WriteOrigin → WriteOrigin → Bool
origin_eq snapshot snapshot = true
origin_eq event event = true
origin_eq replace replace = true
origin_eq patch patch = true
origin_eq _ _ = false

-- `{ ...left, ...right }`
unfoldable pub spread : Row → Row → Row
spread left [] = left
spread left ((key, value) ∷ right) = spread (StrMap.set key value left) right

unfoldable pub fields_from : Row → Fields
fields_from [] = done
fields_from ((key, value) ∷ row) = field key value (fields_from row)

-- `appliesMonotonic`
unfoldable pub applies_monotonic : Option (List WriteOrigin) → WriteOrigin → Bool
applies_monotonic origins origin =
    not (origin_eq origin replace)
    && any (origin_eq origin) (elim origins [ none ↦ snapshot ∷ event ∷ [] | some on ↦ on ])

abbrev is_positive : ℤ → Bool
is_positive (pos zero) = false
is_positive (pos (suc n)) = true
is_positive (negsuc n) = false

is_positive_read : Option ℤ → Bool
is_positive_read none = false
is_positive_read (some n) = is_positive n

-- `applyNestedKeyPolicy`
unfoldable pub apply_nested_key_policy : Builtins → Value → Value → NestedKeyPolicy → Value
unfolding is_positive_read
apply_nested_key_policy js current incoming server_key = incoming
apply_nested_key_policy js current incoming continuity_key =
    if is_nullish incoming then current else incoming
apply_nested_key_policy js current incoming non_empty_key =
    if is_present_value incoming then incoming else current
apply_nested_key_policy js current incoming positive_key =
    if is_positive_read (read_number js incoming)
    then incoming
    else if is_positive_read (read_number js current)
    then current
    else incoming

-- `policy.keys[key] ?? policy.rest ?? 'server'`
unfoldable pub nested_policy :
    StrMap NestedKeyPolicy → Option NestedKeyPolicy → Str → NestedKeyPolicy
nested_policy policies rest key = elim (StrMap.get key policies) [
  | some policy ↦ policy
  | none ↦ elim rest [ none ↦ server_key | some policy ↦ policy ]
]

put_or_delete : Str → Value → Row → Row
put_or_delete key undefined row = StrMap.delete key row
put_or_delete key value row = StrMap.set key value row

nested_loop : Builtins → StrMap NestedKeyPolicy → Option NestedKeyPolicy → Row → Row → Row → Row
unfolding put_or_delete
nested_loop js policies rest previous [] result = result
nested_loop js policies rest previous ((key, value) ∷ incoming) result =
    nested_loop js policies rest previous incoming (
      put_or_delete key
        (apply_nested_key_policy js (read_field previous key) value
          (nested_policy policies rest key))
        result)

nested :
    Builtins
    → StrMap NestedKeyPolicy
    → Option NestedKeyPolicy
    → Option Fields
    → Option Fields
    → Value
    → Value
unfolding nested_loop
nested js policies rest (some previous) (some incoming) value = obj (
    fields_from (
      nested_loop js policies rest (entries previous) (entries incoming)
        (spread (entries previous) (entries incoming))))
nested js policies rest _ _ value = value

-- `applyNestedKeys`
unfoldable pub apply_nested_keys :
    Builtins → StrMap NestedKeyPolicy → Option NestedKeyPolicy → Value → Value → Value
unfolding nested
apply_nested_keys js policies rest previous incoming =
    nested js policies rest (record_of previous) (record_of incoming) incoming

fold_records : Option Fields → Option Fields → Value → Value
fold_records (some previous) (some incoming) value =
    obj (fields_from (spread (entries previous) (entries incoming)))
fold_records _ _ value = value

-- The fold of `snapshot`: two records become one.
unfoldable pub fold_snapshot : Value → Value → Value
unfolding fold_records
fold_snapshot previous incoming = fold_records (record_of previous) (record_of incoming) incoming

-- `restoreField`
unfoldable pub restore_field : Row → Str → Row → Row
restore_field previous name effective = elim (StrMap.get name previous) [
  | some value ↦ StrMap.set name value effective
  | none ↦ StrMap.delete name effective
]

-- `if (field in effective) effective[field] = …`
unfoldable pub rewrite_field : (Value → Value) → Str → Row → Row
rewrite_field f name effective = elim (StrMap.get name effective) [
  | none ↦ effective
  | some value ↦ StrMap.set name (f value) effective
]

unfoldable pub restore_nullish : Row → Str → Row → Row
restore_nullish previous name effective = elim (StrMap.get name effective) [
  | none ↦ effective
  | some value ↦ if is_nullish value then restore_field previous name effective else effective
]

-- `for (const field of fields)`
unfoldable pub each_field : (Str → Row → Row) → List Str → Row → Row
each_field step [] row = row
each_field step (name ∷ names) row = each_field step names (step name row)

-- `applyPolicy`
unfoldable pub apply_policy : Builtins → WritePolicy → List Str → Row → WriteOrigin → Row → Row
apply_policy js server fields previous origin effective = effective
apply_policy js local fields previous origin effective =
    if origin_eq origin patch
    then effective
    else each_field (restore_field previous) fields effective
apply_policy js continuity fields previous origin effective =
    each_field (restore_nullish previous) fields effective
apply_policy js snapshot_fold fields previous origin effective =
    each_field (λ name. rewrite_field (fold_snapshot (read_field previous name)) name) fields
      effective
apply_policy js (keys policies rest) fields previous origin effective =
    each_field
      (λ name. rewrite_field (apply_nested_keys js policies rest (read_field previous name)) name)
      fields effective
apply_policy js (monotonic spec on) fields previous origin effective =
    if not (applies_monotonic on origin) || accepts_monotonic js spec fields effective previous
    then effective
    else each_field (restore_field previous) fields effective

unfoldable pub apply_policies :
    Builtins → List WritePolicy → List Str → Row → WriteOrigin → Row → Row
apply_policies js [] fields previous origin effective = effective
apply_policies js (policy ∷ policies) fields previous origin effective =
    apply_policies js policies fields previous origin
      (apply_policy js policy fields previous origin effective)

unfoldable pub apply_groups : Builtins → List WriteGroup → Row → WriteOrigin → Row → Row
apply_groups js [] previous origin effective = effective
apply_groups js (group ∷ groups) previous origin effective =
    apply_groups js groups previous origin
      (apply_policies js group.policies group.fields previous origin effective)

-- `compileWritePolicies`
unfoldable pub compile_write_policies : Builtins → List WriteGroup → Row → Row → WriteOrigin → Row
compile_write_policies js groups previous incoming origin =
    apply_groups js groups previous origin (spread previous incoming)
