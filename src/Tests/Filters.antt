-- ===== src/Tests/Filters.antt =====
-- A filter compiled for an engine of truth values, and matched row by row.
use react_native_dblayer.Base.{◌≡◌, refl, some, [], ◌∷◌}
use react_native_dblayer.Base.Str.{text, str_eq}
use react_native_dblayer.Base.StrMap
use react_native_dblayer.Base.Value.{
  Value, num, int, pos, str, arr, obj, nil, cons, done, field, entries,
}
use react_native_dblayer.Where.Filter.{
  Row, read_field, where_operators, operators_of, operator_of, gt, gte, lt, lte, is_undefined,
  DbWhere, leaf, and_where, not_where, no_more, where_then, matches_db_where,
}
use react_native_dblayer.Where.Compile.{Engine, compile_where_expression}
use react_native_dblayer.Where.Sql.{
  Truth, no, truth, truth_and, truth_or, truth_not, truth_coalesce, is_null, operand_value,
  sql_equal, sql_compare, sql_in, IsSqlEngine, suits, leaf_suits, condition_suits,
}
use react_native_dblayer.Where.Agree.{selects, compile_where_expression-matches}

in_values : Value → Value → Truth
in_values a (arr items) = sql_in a items
in_values a _ = no

abbrev truth_engine : Engine
truth_engine = record {
  Expression = Row → Truth;
  eq_of = λ a b row. sql_equal (operand_value row a) (operand_value row b);
  gt_of = λ a b row. sql_compare gt (operand_value row a) (operand_value row b);
  gte_of = λ a b row. sql_compare gte (operand_value row a) (operand_value row b);
  lt_of = λ a b row. sql_compare lt (operand_value row a) (operand_value row b);
  lte_of = λ a b row. sql_compare lte (operand_value row a) (operand_value row b);
  in_array_of = λ a b row. in_values (operand_value row a) (operand_value row b);
  is_null_of = λ a row. truth (is_null (operand_value row a));
  is_undefined_of = λ a row. truth (is_undefined (operand_value row a));
  and_of = λ p q row. truth_and (p row) (q row);
  or_of = λ p q row. truth_or (p row) (q row);
  not_of = λ p row. truth_not (p row);
  coalesce_of = λ p b row. truth_coalesce (p row) b;
}

truth_engine-IsSqlEngine : IsSqlEngine truth_engine
unfolding in_values
truth_engine-IsSqlEngine = record {
  holds = λ p row. p row;
  eq_law = λ a b row h k. refl;
  gt_law = λ a b row h. refl;
  gte_law = λ a b row h. refl;
  lt_law = λ a b row h. refl;
  lte_law = λ a b row h. refl;
  in_law = λ a items row h. refl;
  null_law = λ a row. refl;
  undefined_law = λ a row. refl;
  and_law = λ p q row. refl;
  or_law = λ p q row. refl;
  not_law = λ p row. refl;
  coalesce_law = λ p b row. refl;
}

-- A row without a status, and a filter that excludes a status and bounds a count.
abbrev counted_row : Row
counted_row = (text "id", str (text "a")) ∷ (text "count", num (int (pos 3))) ∷ []

abbrev open_filter : DbWhere
open_filter = and_where (
    where_then
      (leaf (
        (text "status", obj (field (text "notIn") (arr (cons (str (text "closed")) nil)) done))
        ∷ []))
      (where_then
        (not_where (leaf ((text "count", obj (field (text "gt") (num (int (pos 5))) done)) ∷ [])))
        no_more))

compile_where_expression-matches_example :
    selects truth_engine truth_engine-IsSqlEngine counted_row
      (compile_where_expression truth_engine (some open_filter))
    ≡ matches_db_where counted_row (some open_filter)
unfolding suits leaf_suits condition_suits where_operators operators_of entries operator_of str_eq
    read_field StrMap.get
compile_where_expression-matches_example =
    compile_where_expression-matches truth_engine truth_engine-IsSqlEngine counted_row open_filter
      refl
