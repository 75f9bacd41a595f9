-- ===== src/WritePolicies/Monotonic.antt =====
-- The predicates of monotonic groups: `acceptsMonotonic` of src/core/writePolicies.ts.
use react_native_dblayer.Base.{
  ℕ, suc, Bool, true, false, ◌&&◌, ◌||◌, not, Option, none, some, List, [], ◌∷◌, ◌==◌, leb,
  if◌then◌else◌, every, any, Ordering,
}
use react_native_dblayer.Base.Str.{Str, str_eq, compare_codepoints}
use react_native_dblayer.Base.StrMap
use react_native_dblayer.Base.StrMap.{StrMap}
use react_native_dblayer.Base.Value.{
  ℤ, Number, nan, Value, undefined, null, bool, num, str, obj, entries,
}
use react_native_dblayer.Where.Filter.{Row, read_field, compare_int, same_number}
use react_native_dblayer.WritePolicies.Types.{
  MonotonicSpec, newer_by, tuple, non_empty, ladder, present, equal, all_specs, any_spec, Specs,
  no_specs, spec_then,
}
use react_native_dblayer.WritePolicies.Codecs.{
  Builtins, read_number, read_date, is_incoming_newer, is_nullish, is_present_value,
}

add_to_first : ℕ → List Str → List Str
add_to_first c [] = (c ∷ []) ∷ []
add_to_first c (part ∷ parts) = (c ∷ part) ∷ parts

-- `path.split('.')`
unfoldable pub split_path : Str → List Str
unfolding add_to_first
split_path [] = [] ∷ []
split_path (c ∷ s) = let rest = split_path s in if c == 46 then [] ∷ rest else add_to_first c rest

-- The steps of `readPath` below a value: only records are entered.
walk : Value → List Str → Value
walk value [] = value
walk (obj fields) (part ∷ parts) = walk (read_field (entries fields) part) parts
walk _ (part ∷ parts) = undefined

walk_row : Row → List Str → Value
unfolding walk
walk_row row [] = undefined
walk_row row (part ∷ parts) = walk (read_field row part) parts

-- `readPath`
unfoldable pub read_path : Row → Str → Value
unfolding walk_row split_path
read_path row path = walk_row row (split_path path)

compare_read : Option ℤ → Option ℤ → Ordering → Ordering
compare_read (some a) (some b) otherwise = compare_int a b
compare_read _ _ otherwise = otherwise

-- The sign of `compareTupleValue`.
unfoldable pub compare_tuple_value : Builtins → Value → Value → Ordering
unfolding compare_read
compare_tuple_value js incoming current =
    if is_nullish incoming
    then (if is_nullish current then Ordering.eq else Ordering.lt)
    else if is_nullish current
    then Ordering.gt
    else compare_read (read_number js incoming) (read_number js current)
        (compare_codepoints (js.text_of incoming) (js.text_of current))

-- `isIncomingTupleNewer`: the first path that differs decides.
unfoldable pub is_incoming_tuple_newer : Builtins → List Str → Row → Row → Bool
is_incoming_tuple_newer js [] incoming previous = false
is_incoming_tuple_newer js (path ∷ paths) incoming previous =
    let rest = is_incoming_tuple_newer js paths incoming previous in
    elim (compare_tuple_value js (read_path incoming path) (read_path previous path)) [
      | Ordering.lt ↦ false
      | Ordering.eq ↦ rest
      | Ordering.gt ↦ true
    ]

-- `isIncomingNewerBy`
unfoldable pub is_incoming_newer_by : Builtins → Str → Row → Row → Bool
is_incoming_newer_by js path incoming previous =
    is_incoming_newer js (read_date js (read_path previous path))
      (read_date js (read_path incoming path))

after_none : Option ℕ → Option ℕ
after_none none = none
after_none (some i) = some (suc i)

-- `ladderRank`; `none` is -1.
unfoldable pub ladder_rank : Str → List (List Str) → Option ℕ
unfolding after_none
ladder_rank name [] = none
ladder_rank name (tier ∷ tiers) =
    let rest = ladder_rank name tiers in
    if any (λ t. str_eq t name) tier then some 0 else after_none rest

rank_reaches : Option ℕ → Option ℕ → Bool
rank_reaches none previous = false
rank_reaches (some i) none = true
rank_reaches (some i) (some p) = leb p i

-- `ladder`: an unranked incoming value is refused.
unfoldable pub accepts_ladder : Builtins → List (List Str) → Value → Value → Bool
unfolding rank_reaches
accepts_ladder js tiers incoming previous =
    if is_nullish incoming || is_nullish previous
    then true
    else rank_reaches (ladder_rank (js.text_of incoming) tiers)
        (ladder_rank (js.text_of previous) tiers)

abbrev is_number_nan : Number → Bool
is_number_nan nan = true
is_number_nan _ = false

-- `Object.is` on values that are not one object.
unfoldable pub object_is : Value → Value → Bool
object_is undefined undefined = true
object_is null null = true
object_is (bool true) (bool true) = true
object_is (bool false) (bool false) = true
object_is (num a) (num b) = same_number a b || (is_number_nan a && is_number_nan b)
object_is (str a) (str b) = str_eq a b
object_is _ _ = false

-- `field in incoming && isPresent(incoming[field])`
unfoldable pub has_present : Row → Str → Bool
has_present row field = elim (StrMap.get field row) [
  | none ↦ false
  | some value ↦ is_present_value value
]

-- `acceptsMonotonic`
unfoldable mutual
  pub accepts_monotonic : Builtins → MonotonicSpec → List Str → Row → Row → Bool
  accepts_monotonic js (newer_by path) fields incoming previous =
      is_incoming_newer_by js path incoming previous
  accepts_monotonic js (tuple paths) fields incoming previous =
      is_incoming_tuple_newer js paths incoming previous
  accepts_monotonic js non_empty fields incoming previous = every (has_present incoming) fields
  accepts_monotonic js (ladder path tiers) fields incoming previous =
      accepts_ladder js tiers (read_path incoming path) (read_path previous path)
  accepts_monotonic js (present path) fields incoming previous =
      not (is_nullish (read_path incoming path))
  accepts_monotonic js (equal path) fields incoming previous =
      object_is (read_path incoming path) (read_path previous path)
  accepts_monotonic js (all_specs specs) fields incoming previous =
      accepts_all js specs fields incoming previous
  accepts_monotonic js (any_spec specs) fields incoming previous =
      accepts_any js specs fields incoming previous

  pub accepts_all : Builtins → Specs → List Str → Row → Row → Bool
  accepts_all js no_specs fields incoming previous = true
  accepts_all js (spec_then spec specs) fields incoming previous =
      accepts_monotonic js spec fields incoming previous
      && accepts_all js specs fields incoming previous

  pub accepts_any : Builtins → Specs → List Str → Row → Row → Bool
  accepts_any js no_specs fields incoming previous = false
  accepts_any js (spec_then spec specs) fields incoming previous =
      accepts_monotonic js spec fields incoming previous
      || accepts_any js specs fields incoming previous
