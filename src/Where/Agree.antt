-- ===== src/Where/Agree.antt =====
-- A compiled filter selects the rows that the filter matches.
use react_native_dblayer.Base.{
  ◌≡◌, refl, ap, sym, ◌∙◌, Bool, true, false, ◌&&◌, ◌||◌, not, none, some, List, [], ◌∷◌, ◌++◌,
  arith, Bool-cases, Option-cases, inl, inr,
}
use react_native_dblayer.Base.Str.{Str}
use react_native_dblayer.Base.StrMap.{StrMap}
use react_native_dblayer.Base.Value.{
  Value, undefined, null, bool, num, int, pos, str, date, arr, obj,
}
use react_native_dblayer.Where.Filter.{
  Row, read_field, Operator, gt, gte, lt, lte, in_list, not_in, where_operators, strict_equal,
  is_undefined, operator_matches, all_operators_match, condition_matches, leaf_matches,
  matches_where, every_matches, some_matches, matches_db_where, is_among, is_not_among, same_number,
  DbWhere, leaf, and_where, or_where, not_where, Wheres, no_more, where_then,
}
use react_native_dblayer.Where.Compile.{
  Operand, ref, literal, Engine, matches_every_row, fold_and, fold_or, all_of, any_of, missing,
  comparison, operator_expressions, equality, condition_expressions, leaf_expressions,
  compile_where, compile_wheres, compile_where_expression,
}
use react_native_dblayer.Where.Sql.{
  yes, truth, selected, truth_or, truth_not, is_plain, operand_value, sql_equal, sql_in, is_null,
  IsSqlEngine, operator_suits, operators_suit, condition_suits, leaf_suits, suits, all_suit,
}
use react_native_dblayer.Where.Truths.{
  selected-and, selected-or, selected-not, selected-truth, sql_equal-selected, sql_compare-selected,
  sql_in-selected, sql_not_in-selected,
}

module _ (engine : Engine) (sql : IsSqlEngine engine) (row : Row) where
  abbrev pub selects : engine.Expression → Bool
  selects e = selected (sql.holds e row)

  abbrev all_select : List engine.Expression → Bool
  all_select [] = true
  all_select (e ∷ es) = selects e && all_select es

  abbrev some_select : List engine.Expression → Bool
  some_select [] = false
  some_select (e ∷ es) = selects e || some_select es

  selects-matches_every_row : sql.holds (matches_every_row engine) row ≡ yes
  unfolding matches_every_row sql_equal strict_equal same_number
  selects-matches_every_row =
      sql.eq_law (literal (num (int (pos 1)))) (literal (num (int (pos 1)))) row refl refl

  selects-fold_and :
      (e : engine.Expression) (es : List engine.Expression)
      → selects (fold_and engine e es) ≡ (selects e && all_select es)
  unfolding fold_and
  selects-fold_and e [] = ground arith
  selects-fold_and e (f ∷ es) =
      selects-fold_and (engine.and_of e f) es
      ∙ ground (
        arith,
        ap selected (sql.and_law e f row),
        selected-and (sql.holds e row) (sql.holds f row),
      )

  selects-fold_or :
      (e : engine.Expression) (es : List engine.Expression)
      → selects (fold_or engine e es) ≡ (selects e || some_select es)
  unfolding fold_or
  selects-fold_or e [] = ground arith
  selects-fold_or e (f ∷ es) =
      selects-fold_or (engine.or_of e f) es
      ∙ ground
          (arith, ap selected (sql.or_law e f row), selected-or (sql.holds e row) (sql.holds f row))

  selects-all_of : (es : List engine.Expression) → selects (all_of engine es) ≡ all_select es
  unfolding all_of
  selects-all_of [] = ap selected selects-matches_every_row
  selects-all_of (e ∷ es) = selects-fold_and e es

  selects-any_of : (es : List engine.Expression) → selects (any_of engine es) ≡ some_select es
  unfolding any_of
  selects-any_of [] =
      ap selected
        (sql.not_law (matches_every_row engine) row ∙ ap truth_not selects-matches_every_row)
  selects-any_of (e ∷ es) = selects-fold_or e es

  all_select-append :
      (es fs : List engine.Expression) → all_select (es ++ fs) ≡ (all_select es && all_select fs)
  all_select-append [] fs = refl
  all_select-append (e ∷ es) fs = ground (arith, all_select-append es fs)

  selects-missing :
      (field : Operand)
      → sql.holds (missing engine field) row
        ≡ truth_or
            (truth (is_null (operand_value row field)))
            (truth (is_undefined (operand_value row field)))
  unfolding missing
  selects-missing field =
      sql.or_law (engine.is_null_of field) (engine.is_undefined_of field) row
      ∙ rw (sql.null_law field row, sql.undefined_law field row) refl

  selects-comparison :
      (key : Str) (op : Operator) (operand : Value)
      → operator_suits (read_field row key) op operand ≡ true
      → selects (comparison engine op (ref key) (literal operand))
        ≡ operator_matches (read_field row key) op operand
  unfolding comparison operator_matches is_among is_not_among
  selects-comparison key gt operand h =
      ap selected (sql.gt_law (ref key) (literal operand) row h) ∙ sql_compare-selected gt _ _ h
  selects-comparison key gte operand h =
      ap selected (sql.gte_law (ref key) (literal operand) row h) ∙ sql_compare-selected gte _ _ h
  selects-comparison key lt operand h =
      ap selected (sql.lt_law (ref key) (literal operand) row h) ∙ sql_compare-selected lt _ _ h
  selects-comparison key lte operand h =
      ap selected (sql.lte_law (ref key) (literal operand) row h) ∙ sql_compare-selected lte _ _ h
  selects-comparison key in_list (arr items) h =
      ap selected (sql.in_law (ref key) items row (ground arith))
      ∙ sql_in-selected _ items (ground arith)
  selects-comparison key not_in (arr items) h =
      let value = read_field row key in
      let inside = engine.in_array_of (ref key) (literal (arr items)) in
      let outside : sql.holds (engine.not_of inside) row ≡ truth_not (sql_in value items) =
        sql.not_law inside row ∙ ap truth_not (sql.in_law (ref key) items row (ground arith)) in
      ap selected (
        sql.or_law (engine.not_of inside) (missing engine (ref key)) row
        ∙ rw (outside, selects-missing (ref key)) refl)
      ∙ sql_not_in-selected value items (ground arith)
  selects-comparison key in_list _ h = absurd (ground arith)
  selects-comparison key not_in _ h = absurd (ground arith)

  selects-operator_expressions :
      (key : Str) (ops : List (Operator × Value))
      → operators_suit (read_field row key) ops ≡ true
      → all_select (operator_expressions engine (ref key) ops)
        ≡ all_operators_match (read_field row key) ops
  unfolding operator_expressions all_operators_match
  selects-operator_expressions key [] h = refl
  selects-operator_expressions key ((op, operand) ∷ ops) h = ground (
    arith,
    selects-comparison key op operand (ground arith),
    selects-operator_expressions key ops,
  )

  selects-null :
      (key : Str) → selects (engine.is_null_of (ref key)) ≡ strict_equal (read_field row key) null
  unfolding strict_equal
  selects-null key =
      ap selected (sql.null_law (ref key) row)
      ∙ selected-truth _
      ∙ is_null-strict_equal (read_field row key)
    where
      is_null-strict_equal : (v : Value) → is_null v ≡ strict_equal v null
      is_null-strict_equal undefined = refl
      is_null-strict_equal null = refl
      is_null-strict_equal (bool true) = refl
      is_null-strict_equal (bool false) = refl
      is_null-strict_equal _ = refl

  selects-equality :
      (key : Str) (condition : Value)
      → is_undefined condition ≡ false
      → is_plain (read_field row key) ≡ true
      → is_plain condition ≡ true
      → selects (equality engine (ref key) condition) ≡ strict_equal (read_field row key) condition
  unfolding equality
  selects-equality key undefined u p q = cc
  selects-equality key null u p q = selects-null key
  selects-equality key (bool b) u p q =
      ap selected (sql.eq_law (ref key) (literal (bool b)) row p refl)
      ∙ sql_equal-selected _ (bool b) refl
  selects-equality key (num n) u p q =
      ap selected (sql.eq_law (ref key) (literal (num n)) row p refl)
      ∙ sql_equal-selected _ (num n) refl
  selects-equality key (str s) u p q =
      ap selected (sql.eq_law (ref key) (literal (str s)) row p refl)
      ∙ sql_equal-selected _ (str s) refl
  selects-equality key (date d) u p q = cc
  selects-equality key (arr i) u p q = cc
  selects-equality key (obj f) u p q = cc

  selects-condition :
      (key : Str) (condition : Value)
      → is_undefined condition ≡ false
      → condition_suits (read_field row key) condition ≡ true
      → all_select (condition_expressions engine (ref key) condition)
        ≡ condition_matches (read_field row key) condition
  unfolding condition_expressions condition_matches condition_suits
  selects-condition key condition u h = elim (Option-cases (where_operators condition)) [
    | inl value ↦
        let plain : (is_plain (read_field row key) && is_plain condition) ≡ true =
          sym (the_value value) ∙ h in
        rw (value, condition_expressions, condition_matches)
          (ground (arith, selects-equality key condition u (ground arith) (ground arith)))
    | inr (ops, record_of) ↦
        let suit : operators_suit (read_field row key) ops ≡ true =
          sym (the_record ops record_of) ∙ h in
        rw (record_of, condition_expressions, condition_matches)
          (selects-operator_expressions key ops suit)
  ]
    where
      the_value :
          where_operators condition ≡ none
          → condition_suits (read_field row key) condition
            ≡ (is_plain (read_field row key) && is_plain condition)
      the_value e = rw (e, condition_suits) refl

      the_record :
          (ops : List (Operator × Value))
          → where_operators condition ≡ some ops
          → condition_suits (read_field row key) condition ≡ operators_suit (read_field row key) ops
      the_record ops e = rw (e, condition_suits) refl

  selects-leaf :
      (fields : StrMap Value)
      → leaf_suits row fields ≡ true
      → all_select (leaf_expressions engine fields) ≡ leaf_matches row fields
  unfolding leaf_expressions leaf_matches leaf_suits
  selects-leaf [] h = refl
  selects-leaf ((key, condition) ∷ fields) h = elim (Bool-cases (is_undefined condition)) [
    | inl absent ↦ ground (arith, selects-leaf fields)
    | inr there ↦ ground (
      arith,
      selects-leaf fields,
      selects-condition key condition there,
      all_select-append (condition_expressions engine (ref key) condition)
          (leaf_expressions engine fields),
    )
  ]

  mutual
    unfolding compile_where matches_where suits

    selects-compile_where :
        (w : DbWhere) → suits row w ≡ true → selects (compile_where engine w) ≡ matches_where row w
    selects-compile_where (leaf fields) h =
        selects-all_of (leaf_expressions engine fields) ∙ selects-leaf fields h
    selects-compile_where (and_where ws) h =
        selects-all_of (compile_wheres engine ws) ∙ every-compile_wheres ws h
    selects-compile_where (or_where ws) h =
        selects-any_of (compile_wheres engine ws) ∙ some-compile_wheres ws h
    selects-compile_where (not_where w) h =
        ap selected (
          sql.not_law (engine.coalesce_of (compile_where engine w) false) row
          ∙ ap truth_not (sql.coalesce_law (compile_where engine w) false row))
        ∙ selected-not (sql.holds (compile_where engine w) row)
        ∙ ap not (selects-compile_where w h)

    every-compile_wheres :
        (ws : Wheres)
        → all_suit row ws ≡ true
        → all_select (compile_wheres engine ws) ≡ every_matches row ws
    every-compile_wheres no_more h = refl
    every-compile_wheres (where_then w ws) h =
        ground
          (arith, selects-compile_where w (ground arith), every-compile_wheres ws (ground arith))

    some-compile_wheres :
        (ws : Wheres)
        → all_suit row ws ≡ true
        → some_select (compile_wheres engine ws) ≡ some_matches row ws
    some-compile_wheres no_more h = refl
    some-compile_wheres (where_then w ws) h =
        ground
          (arith, selects-compile_where w (ground arith), some-compile_wheres ws (ground arith))

  -- On an engine with the documented semantics, for a row and a filter whose values have the types
  -- of the filter language, the compiled filter selects the row exactly if the filter matches it.
  pub compile_where_expression-matches :
      (w : DbWhere)
      → suits row w ≡ true
      → selects (compile_where_expression engine (some w)) ≡ matches_db_where row (some w)
  unfolding compile_where_expression matches_db_where
  compile_where_expression-matches w h = selects-compile_where w h
