-- ===== src/Where/Truths.antt =====
-- What the truth values of a compiled filter select.
use react_native_dblayer.Base.{
  ◌≡◌, refl, sym, Bool, true, false, ◌&&◌, ◌||◌, not, arith, Bool-cases, inl, inr,
}
use react_native_dblayer.Base.Value.{
  Value, undefined, null, bool, num, int, str, date, arr, obj, Items, nil, cons,
}
use react_native_dblayer.Where.Filter.{
  Operator, strict_equal, some_equal, compare_ordered_values, compared, is_undefined,
}
use react_native_dblayer.Where.Sql.{
  Truth, yes, no, unknown, truth, selected, truth_and, truth_or, truth_not, truth_coalesce,
  is_nullish, are_comparable, sql_equal, sql_compare, sql_in, is_null, no_nullish,
}

pub selected-and : (a b : Truth) → selected (truth_and a b) ≡ (selected a && selected b)
selected-and yes b = refl
selected-and no b = refl
selected-and unknown yes = refl
selected-and unknown no = refl
selected-and unknown unknown = refl

pub selected-or : (a b : Truth) → selected (truth_or a b) ≡ (selected a || selected b)
selected-or yes b = refl
selected-or no b = refl
selected-or unknown yes = refl
selected-or unknown no = refl
selected-or unknown unknown = refl

pub selected-not : (a : Truth) → selected (truth_not (truth_coalesce a false)) ≡ not (selected a)
selected-not yes = refl
selected-not no = refl
selected-not unknown = refl

pub selected-truth : (b : Bool) → selected (truth b) ≡ b
selected-truth true = refl
selected-truth false = refl

pub strict_equal-nullish :
    (a b : Value) → is_nullish a ≡ true → is_nullish b ≡ false → strict_equal a b ≡ false
unfolding strict_equal
strict_equal-nullish undefined b h k = ground arith
strict_equal-nullish null b h k = ground arith
strict_equal-nullish (bool b) _ h k = cc
strict_equal-nullish (num n) _ h k = cc
strict_equal-nullish (str s) _ h k = cc
strict_equal-nullish (date d) _ h k = cc
strict_equal-nullish (arr i) _ h k = cc
strict_equal-nullish (obj f) _ h k = cc

pub some_equal-nullish :
    (a : Value) (items : Items)
    → is_nullish a ≡ true
    → no_nullish items ≡ true
    → some_equal a items ≡ false
unfolding some_equal
some_equal-nullish a nil h k = refl
some_equal-nullish a (cons item items) h k =
    ground (arith, some_equal-nullish a items, strict_equal-nullish a item)

pub sql_equal-selected :
    (a b : Value) → is_nullish b ≡ false → selected (sql_equal a b) ≡ strict_equal a b
unfolding sql_equal
sql_equal-selected a b k = elim (Bool-cases (is_nullish a)) [
  | inl absent ↦ rw absent (sym (strict_equal-nullish a b absent k))
  | inr present ↦ rw (present, k) (selected-truth (strict_equal a b))
]

pub sql_compare-selected :
    (op : Operator) (a b : Value)
    → are_comparable a b ≡ true
    → selected (sql_compare op a b) ≡ compared op (compare_ordered_values a b)
unfolding sql_compare compare_ordered_values compared
sql_compare-selected op undefined b h = ground arith
sql_compare-selected op null b h = ground arith
sql_compare-selected op (num (int a)) (num (int b)) h = selected-truth _
sql_compare-selected op (str a) (str b) h = selected-truth _
sql_compare-selected op _ _ h = cc

pub sql_in-selected :
    (a : Value) (items : Items)
    → no_nullish items ≡ true
    → selected (sql_in a items) ≡ some_equal a items
unfolding sql_in
sql_in-selected a items k = elim (Bool-cases (is_nullish a)) [
  | inl absent ↦ rw absent (sym (some_equal-nullish a items absent k))
  | inr present ↦ rw present (selected-truth (some_equal a items))
]

pub sql_not_in-selected :
    (a : Value) (items : Items)
    → no_nullish items ≡ true
    → selected (
        truth_or
          (truth_not (sql_in a items))
          (truth_or (truth (is_null a)) (truth (is_undefined a))))
      ≡ not (some_equal a items)
unfolding sql_in
sql_not_in-selected undefined items k = rw (some_equal-nullish undefined items refl k) refl
sql_not_in-selected null items k = rw (some_equal-nullish null items refl k) refl
sql_not_in-selected (bool b) items k = ground arith
sql_not_in-selected (num n) items k = ground arith
sql_not_in-selected (str s) items k = ground arith
sql_not_in-selected (date d) items k = ground arith
sql_not_in-selected (arr i) items k = ground arith
sql_not_in-selected (obj f) items k = ground arith
