-- ===== src/Where/Compile.antt =====
-- src/core/compileWhereExpression.ts: a declared filter as an expression of the collection engine,
-- which is a package. The engine is an interface here: its operations and what it documents of
-- their truth values.
use react_native_dblayer.Base.{Bool, false, Option, none, some, List, [], ◌∷◌, ◌++◌, if◌then◌else◌}
use react_native_dblayer.Base.Str.{Str}
use react_native_dblayer.Base.StrMap.{StrMap}
use react_native_dblayer.Base.Value.{Value, null, num, int, pos}
use react_native_dblayer.Where.Filter.{
  Operator, gt, gte, lt, lte, in_list, not_in, where_operators, is_undefined, DbWhere, leaf,
  and_where, or_where, not_where, Wheres, no_more, where_then,
}

-- What stands on either side of a comparison.
pub data Operand : Type 0 where
  ref : Str → Operand
  literal : Value → Operand

-- The functions that the source imports from `@tanstack/db`.
pub record Engine : Type 1 where
  pub Expression : Type 0
  pub eq_of : Operand → Operand → Expression
  pub gt_of : Operand → Operand → Expression
  pub gte_of : Operand → Operand → Expression
  pub lt_of : Operand → Operand → Expression
  pub lte_of : Operand → Operand → Expression
  pub in_array_of : Operand → Operand → Expression
  pub is_null_of : Operand → Expression
  pub is_undefined_of : Operand → Expression
  pub and_of : Expression → Expression → Expression
  pub or_of : Expression → Expression → Expression
  pub not_of : Expression → Expression
  pub coalesce_of : Expression → Bool → Expression

module _ (engine : Engine) where
  -- `MATCHES_EVERY_ROW`
  unfoldable pub matches_every_row : engine.Expression
  matches_every_row = engine.eq_of (literal one) (literal one)
    where
      one : Value
      one = num (int (pos 1))

  unfoldable pub fold_and : engine.Expression → List engine.Expression → engine.Expression
  fold_and left [] = left
  fold_and left (right ∷ parts) = fold_and (engine.and_of left right) parts

  unfoldable pub fold_or : engine.Expression → List engine.Expression → engine.Expression
  fold_or left [] = left
  fold_or left (right ∷ parts) = fold_or (engine.or_of left right) parts

  unfoldable pub all_of : List engine.Expression → engine.Expression
  unfolding fold_and
  all_of [] = matches_every_row
  all_of (part ∷ parts) = fold_and part parts

  unfoldable pub any_of : List engine.Expression → engine.Expression
  unfolding fold_or
  any_of [] = engine.not_of matches_every_row
  any_of (part ∷ parts) = fold_or part parts

  unfoldable pub missing : Operand → engine.Expression
  missing field = engine.or_of (engine.is_null_of field) (engine.is_undefined_of field)

  -- `comparisons`
  unfoldable pub comparison : Operator → Operand → Operand → engine.Expression
  unfolding missing
  comparison gt field operand = engine.gt_of field operand
  comparison gte field operand = engine.gte_of field operand
  comparison lt field operand = engine.lt_of field operand
  comparison lte field operand = engine.lte_of field operand
  comparison in_list field operand = engine.in_array_of field operand
  comparison not_in field operand =
      engine.or_of (engine.not_of (engine.in_array_of field operand)) (missing field)

  unfoldable pub operator_expressions : Operand → List (Operator × Value) → List engine.Expression
  operator_expressions field [] = []
  operator_expressions field ((op, operand) ∷ ops) =
      comparison op field (literal operand) ∷ operator_expressions field ops

  unfoldable pub equality : Operand → Value → engine.Expression
  equality field null = engine.is_null_of field
  equality field value = engine.eq_of field (literal value)

  unfoldable pub condition_expressions : Operand → Value → List engine.Expression
  condition_expressions field condition = elim (where_operators condition) [
    | none ↦ equality field condition ∷ []
    | some ops ↦ operator_expressions field ops
  ]

  unfoldable pub leaf_expressions : StrMap Value → List engine.Expression
  leaf_expressions [] = []
  leaf_expressions ((key, condition) ∷ fields) =
      let rest = leaf_expressions fields in
      if is_undefined condition then rest else condition_expressions (ref key) condition ++ rest

  -- `compileWhereExpression` of a filter that is there.
  unfoldable mutual
    pub compile_where : DbWhere → engine.Expression
    compile_where (leaf fields) = all_of (leaf_expressions fields)
    compile_where (and_where children) = all_of (compile_wheres children)
    compile_where (or_where children) = any_of (compile_wheres children)
    compile_where (not_where child) = engine.not_of (engine.coalesce_of (compile_where child) false)

    pub compile_wheres : Wheres → List engine.Expression
    compile_wheres no_more = []
    compile_wheres (where_then w ws) = compile_where w ∷ compile_wheres ws

  -- `compileWhereExpression`
  unfoldable pub compile_where_expression : Option DbWhere → engine.Expression
  compile_where_expression none = matches_every_row
  compile_where_expression (some w) = compile_where w
