-- ===== src/Where/Filter.antt =====
-- src/core/compileDbWhere.ts: what a declared filter says of one row.
use react_native_dblayer.Base.{
  Bool, true, false, ◌&&◌, ◌||◌, not, Option, none, some, List, [], ◌∷◌, compare, if◌then◌else◌,
  Ordering,
}
use react_native_dblayer.Base.Str.{Str, text, str_eq, compare_codepoints}
use react_native_dblayer.Base.StrMap
use react_native_dblayer.Base.StrMap.{StrMap}
use react_native_dblayer.Base.Value.{
  ℤ, pos, negsuc, Number, neg_infinity, pos_infinity, int, Value, undefined, null, bool, num, str,
  arr, obj, Items, nil, cons, entries,
}

-- A stored row; a field that is not there reads as `undefined`.
abbrev pub Row : Type 0
Row = StrMap Value

unfoldable pub read_field : Row → Str → Value
read_field row key = elim (StrMap.get key row) [ none ↦ undefined | some value ↦ value ]

pub data Operator : Type 0 where
  gt gte lt lte in_list not_in : Operator

-- `WHERE_OPERATOR_NAMES`
unfoldable pub operator_of : Str → Option Operator
operator_of name =
    if str_eq name (text "gt")
    then some gt
    else if str_eq name (text "gte")
    then some gte
    else if str_eq name (text "lt")
    then some lt
    else if str_eq name (text "lte")
    then some lte
    else if str_eq name (text "in")
    then some in_list
    else if str_eq name (text "notIn")
    then some not_in
    else none

with_operator :
    Option Operator → Value → Option (List (Operator × Value)) → Option (List (Operator × Value))
with_operator none operand rest = none
with_operator (some op) operand none = none
with_operator (some op) operand (some rest) = some ((op, operand) ∷ rest)

-- The operators of a record; `none` where some key is no operator.
unfoldable pub operators_of : StrMap Value → Option (List (Operator × Value))
unfolding with_operator
operators_of [] = some []
operators_of ((name, operand) ∷ fields) =
    with_operator (operator_of name) operand (operators_of fields)

some_operators : Option (List (Operator × Value)) → Option (List (Operator × Value))
some_operators (some (o ∷ os)) = some (o ∷ os)
some_operators _ = none

-- `isWhereOperatorValue`, with the operators: a record with keys, each of an operator.
unfoldable pub where_operators : Value → Option (List (Operator × Value))
unfolding some_operators
where_operators (obj fields) = some_operators (operators_of (entries fields))
where_operators _ = none

abbrev pub compare_int : ℤ → ℤ → Ordering
compare_int (pos a) (pos b) = compare a b
compare_int (pos a) (negsuc b) = Ordering.gt
compare_int (negsuc a) (pos b) = Ordering.lt
compare_int (negsuc a) (negsuc b) = compare b a

-- The sign of a difference of numbers; `none` is NaN, as also for equal infinities.
unfoldable pub subtract : Number → Number → Option Ordering
subtract (int a) (int b) = some (compare_int a b)
subtract (int a) neg_infinity = some Ordering.gt
subtract (int a) pos_infinity = some Ordering.lt
subtract pos_infinity (int b) = some Ordering.gt
subtract pos_infinity neg_infinity = some Ordering.gt
subtract neg_infinity (int b) = some Ordering.lt
subtract neg_infinity pos_infinity = some Ordering.lt
subtract _ _ = none

-- `compareOrderedValues`; `none` for values that are not of one ordered type, and for NaN.
unfoldable pub compare_ordered_values : Value → Value → Option Ordering
compare_ordered_values (num a) (num b) = subtract a b
compare_ordered_values (str a) (str b) = some (compare_codepoints a b)
compare_ordered_values _ _ = none

abbrev is_above : Ordering → Bool
is_above Ordering.gt = true
is_above _ = false

abbrev is_equal : Ordering → Bool
is_equal Ordering.eq = true
is_equal _ = false

abbrev is_below : Ordering → Bool
is_below Ordering.lt = true
is_below _ = false

unfoldable pub same_number : Number → Number → Bool
same_number (int a) (int b) = is_equal (compare_int a b)
same_number pos_infinity pos_infinity = true
same_number neg_infinity neg_infinity = true
same_number _ _ = false

-- `===`. A row and a filter never hold the same object.
unfoldable pub strict_equal : Value → Value → Bool
strict_equal undefined undefined = true
strict_equal null null = true
strict_equal (bool true) (bool true) = true
strict_equal (bool false) (bool false) = true
strict_equal (num a) (num b) = same_number a b
strict_equal (str a) (str b) = str_eq a b
strict_equal _ _ = false

unfoldable pub some_equal : Value → Items → Bool
some_equal value nil = false
some_equal value (cons item items) = strict_equal value item || some_equal value items

unfoldable pub is_among : Value → Value → Bool
is_among value (arr items) = some_equal value items
is_among value _ = false

unfoldable pub is_not_among : Value → Value → Bool
is_not_among value (arr items) = not (some_equal value items)
is_not_among value _ = false

abbrev pub ordered_by : Operator → Ordering → Bool
ordered_by gt o = is_above o
ordered_by gte o = not (is_below o)
ordered_by lt o = is_below o
ordered_by lte o = not (is_above o)
ordered_by _ o = false

unfoldable pub compared : Operator → Option Ordering → Bool
compared op none = false
compared op (some o) = ordered_by op o

-- One operator of `operatorMatches`.
unfoldable pub operator_matches : Value → Operator → Value → Bool
operator_matches value in_list operand = is_among value operand
operator_matches value not_in operand = is_not_among value operand
operator_matches value gt operand = compared gt (compare_ordered_values value operand)
operator_matches value gte operand = compared gte (compare_ordered_values value operand)
operator_matches value lt operand = compared lt (compare_ordered_values value operand)
operator_matches value lte operand = compared lte (compare_ordered_values value operand)

unfoldable pub all_operators_match : Value → List (Operator × Value) → Bool
all_operators_match value [] = true
all_operators_match value ((op, operand) ∷ ops) =
    operator_matches value op operand && all_operators_match value ops

abbrev pub is_undefined : Value → Bool
is_undefined undefined = true
is_undefined _ = false

unfoldable pub condition_matches : Value → Value → Bool
condition_matches value condition = elim (where_operators condition) [
  | none ↦ strict_equal value condition
  | some ops ↦ all_operators_match value ops
]

-- `leafMatches`
unfoldable pub leaf_matches : Row → StrMap Value → Bool
leaf_matches row [] = true
leaf_matches row ((key, condition) ∷ fields) =
    let rest = leaf_matches row fields in
    if is_undefined condition
    then rest
    else condition_matches (read_field row key) condition && rest

-- A filter. A record with a key `and`, `or` or `not` is the node of that name, `and` before `or`
-- before `not`, and any other record is a leaf: `isOperatorNode`.
mutual
  pub data DbWhere : Type 0 where
    leaf : StrMap Value → DbWhere
    and_where or_where : Wheres → DbWhere
    not_where : DbWhere → DbWhere

  pub data Wheres : Type 0 where
    no_more : Wheres
    where_then : DbWhere → Wheres → Wheres

-- `matchesDbWhere` of a filter that is there.
unfoldable mutual
  pub matches_where : Row → DbWhere → Bool
  matches_where row (leaf fields) = leaf_matches row fields
  matches_where row (and_where children) = every_matches row children
  matches_where row (or_where children) = some_matches row children
  matches_where row (not_where child) = not (matches_where row child)

  pub every_matches : Row → Wheres → Bool
  every_matches row no_more = true
  every_matches row (where_then w ws) = matches_where row w && every_matches row ws

  pub some_matches : Row → Wheres → Bool
  some_matches row no_more = false
  some_matches row (where_then w ws) = matches_where row w || some_matches row ws

-- `matchesDbWhere`
unfoldable pub matches_db_where : Row → Option DbWhere → Bool
matches_db_where row none = true
matches_db_where row (some w) = matches_where row w
