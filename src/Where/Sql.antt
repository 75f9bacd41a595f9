-- ===== src/Where/Sql.antt =====
-- What the collection engine documents of its expressions: the three truth values of SQL.
use react_native_dblayer.Base.{
  ◌≡◌, Bool, true, false, ◌&&◌, ◌||◌, not, none, some, List, [], ◌∷◌, if◌then◌else◌,
}
use react_native_dblayer.Base.StrMap.{StrMap}
use react_native_dblayer.Base.Value.{
  Value, undefined, null, num, int, str, date, arr, obj, Items, nil, cons,
}
use react_native_dblayer.Where.Filter.{
  Row, read_field, Operator, gt, gte, lt, lte, in_list, not_in, where_operators, strict_equal,
  some_equal, compare_ordered_values, compared, is_undefined, DbWhere, leaf, and_where, or_where,
  not_where, Wheres, no_more, where_then,
}
use react_native_dblayer.Where.Compile.{Operand, ref, literal, Engine}

pub data Truth : Type 0 where
  yes no unknown : Truth

abbrev pub truth : Bool → Truth
truth true = yes
truth false = no

-- A row is selected where its condition is true.
abbrev pub selected : Truth → Bool
selected yes = true
selected _ = false

abbrev pub truth_and : Truth → Truth → Truth
truth_and no b = no
truth_and yes b = b
truth_and unknown no = no
truth_and unknown _ = unknown

abbrev pub truth_or : Truth → Truth → Truth
truth_or yes b = yes
truth_or no b = b
truth_or unknown yes = yes
truth_or unknown _ = unknown

abbrev pub truth_not : Truth → Truth
truth_not yes = no
truth_not no = yes
truth_not unknown = unknown

abbrev pub truth_coalesce : Truth → Bool → Truth
truth_coalesce unknown b = truth b
truth_coalesce t b = t

abbrev pub is_nullish : Value → Bool
is_nullish undefined = true
is_nullish null = true
is_nullish _ = false

-- Not an object: the engine compares those by their contents.
abbrev pub is_plain : Value → Bool
is_plain (date t) = false
is_plain (arr items) = false
is_plain (obj fields) = false
is_plain _ = true

-- Values that an order comparison takes as they are: two finite numbers, two strings, or a
-- missing one beside either.
abbrev pub is_ordered : Value → Bool
is_ordered (num (int a)) = true
is_ordered (str a) = true
is_ordered _ = false

abbrev pub are_comparable : Value → Value → Bool
are_comparable (num (int a)) (num (int b)) = true
are_comparable (str a) (str b) = true
are_comparable undefined b = is_ordered b
are_comparable null b = is_ordered b
are_comparable _ _ = false

abbrev pub operand_value : Row → Operand → Value
operand_value row (ref key) = read_field row key
operand_value row (literal value) = value

unfoldable pub sql_equal : Value → Value → Truth
sql_equal a b = if is_nullish a || is_nullish b then unknown else truth (strict_equal a b)

unfoldable pub sql_compare : Operator → Value → Value → Truth
sql_compare op a b =
    if is_nullish a || is_nullish b
    then unknown
    else truth (compared op (compare_ordered_values a b))

unfoldable pub sql_in : Value → Items → Truth
sql_in a items = if is_nullish a then unknown else truth (some_equal a items)

abbrev pub is_null : Value → Bool
is_null null = true
is_null _ = false

-- The engine's documented semantics, where the source relies on it.
pub record IsSqlEngine (engine : Engine) : Type 0 where
  pub holds : engine.Expression → Row → Truth
  pub eq_law :
      (a b : Operand) (row : Row)
      → is_plain (operand_value row a) ≡ true
      → is_plain (operand_value row b) ≡ true
      → holds (engine.eq_of a b) row ≡ sql_equal (operand_value row a) (operand_value row b)
  pub gt_law :
      (a b : Operand) (row : Row)
      → are_comparable (operand_value row a) (operand_value row b) ≡ true
      → holds (engine.gt_of a b) row ≡ sql_compare gt (operand_value row a) (operand_value row b)
  pub gte_law :
      (a b : Operand) (row : Row)
      → are_comparable (operand_value row a) (operand_value row b) ≡ true
      → holds (engine.gte_of a b) row ≡ sql_compare gte (operand_value row a) (operand_value row b)
  pub lt_law :
      (a b : Operand) (row : Row)
      → are_comparable (operand_value row a) (operand_value row b) ≡ true
      → holds (engine.lt_of a b) row ≡ sql_compare lt (operand_value row a) (operand_value row b)
  pub lte_law :
      (a b : Operand) (row : Row)
      → are_comparable (operand_value row a) (operand_value row b) ≡ true
      → holds (engine.lte_of a b) row ≡ sql_compare lte (operand_value row a) (operand_value row b)
  pub in_law :
      (a : Operand) (items : Items) (row : Row)
      → is_plain (operand_value row a) ≡ true
      → holds (engine.in_array_of a (literal (arr items))) row ≡ sql_in (operand_value row a) items
  pub null_law :
      (a : Operand) (row : Row)
      → holds (engine.is_null_of a) row ≡ truth (is_null (operand_value row a))
  pub undefined_law :
      (a : Operand) (row : Row)
      → holds (engine.is_undefined_of a) row ≡ truth (is_undefined (operand_value row a))
  pub and_law :
      (p q : engine.Expression) (row : Row)
      → holds (engine.and_of p q) row ≡ truth_and (holds p row) (holds q row)
  pub or_law :
      (p q : engine.Expression) (row : Row)
      → holds (engine.or_of p q) row ≡ truth_or (holds p row) (holds q row)
  pub not_law :
      (p : engine.Expression) (row : Row) → holds (engine.not_of p) row ≡ truth_not (holds p row)
  pub coalesce_law :
      (p : engine.Expression) (b : Bool) (row : Row)
      → holds (engine.coalesce_of p b) row ≡ truth_coalesce (holds p row) b

abbrev pub no_nullish : Items → Bool
no_nullish nil = true
no_nullish (cons item items) = not (is_nullish item) && no_nullish items

abbrev pub is_list : Value → Bool
is_list (arr items) = no_nullish items
is_list _ = false

-- The types of the filter language: operands of the field's own type, and lists without absent
-- values.
abbrev pub operator_suits : Value → Operator → Value → Bool
operator_suits value in_list operand = is_plain value && is_list operand
operator_suits value not_in operand = is_plain value && is_list operand
operator_suits value op operand = are_comparable value operand

abbrev pub operators_suit : Value → List (Operator × Value) → Bool
operators_suit value [] = true
operators_suit value ((op, operand) ∷ ops) =
    operator_suits value op operand && operators_suit value ops

unfoldable pub condition_suits : Value → Value → Bool
condition_suits value condition = elim (where_operators condition) [
  | none ↦ is_plain value && is_plain condition
  | some ops ↦ operators_suit value ops
]

unfoldable pub leaf_suits : Row → StrMap Value → Bool
leaf_suits row [] = true
leaf_suits row ((key, condition) ∷ fields) =
    let rest = leaf_suits row fields in
    if is_undefined condition then rest else condition_suits (read_field row key) condition && rest

unfoldable mutual
  pub suits : Row → DbWhere → Bool
  suits row (leaf fields) = leaf_suits row fields
  suits row (and_where children) = all_suit row children
  suits row (or_where children) = all_suit row children
  suits row (not_where child) = suits row child

  pub all_suit : Row → Wheres → Bool
  all_suit row no_more = true
  all_suit row (where_then w ws) = suits row w && all_suit row ws
