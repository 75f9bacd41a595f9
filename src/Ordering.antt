-- ===== src/Ordering.antt =====
-- src/core/ordering.ts: the id tie-break on a row comparator, the pick of the lowest row and the
-- row limit. A comparator returns `none` for NaN. Values and field orders are not here.
pub mod Lowest
use react_native_dblayer.Base.{
  ℕ, Bool, true, false, Option, none, some, List, [], ◌∷◌, if◌then◌else◌, take, Ordering,
}
use react_native_dblayer.Base.Str.{Str, compare_codepoints}

abbrev pub is_lt : Ordering → Bool
is_lt Ordering.lt = true
is_lt Ordering.eq = false
is_lt Ordering.gt = false

unfoldable pub tie_break : Option Ordering → Str → Str → Ordering
tie_break none left right = compare_codepoints left right
tie_break (some Ordering.eq) left right = compare_codepoints left right
tie_break (some Ordering.lt) left right = Ordering.lt
tie_break (some Ordering.gt) left right = Ordering.gt

module _ {ℓ} {Row : Type ℓ} (id_of : Row → Str) where
  -- `withIdTieBreak`
  unfoldable pub with_id_tie_break : (Row → Row → Option Ordering) → Row → Row → Ordering
  unfolding tie_break
  with_id_tie_break compare left right = tie_break (compare left right) (id_of left) (id_of right)

  -- The `reduce` of `pickLowestRow`, from the best row so far.
  unfoldable pub lowest_from : (Row → Row → Option Ordering) → Row → List Row → Row
  lowest_from compare best [] = best
  lowest_from compare best (row ∷ rows) =
      lowest_from compare (if is_lt (with_id_tie_break compare row best) then row else best) rows

  -- `pickLowestRow`
  unfoldable pub pick_lowest_row : List Row → Option (Row → Row → Option Ordering) → Option Row
  unfolding lowest_from
  pick_lowest_row [] comparator = none
  pick_lowest_row (row ∷ rows) none = some row
  pick_lowest_row (row ∷ rows) (some compare) = some (lowest_from compare row rows)

-- `limitRows`, with a limit that is not negative.
unfoldable pub limit_rows {ℓ} : {A : Type ℓ} → List A → Option ℕ → List A
limit_rows rows none = rows
limit_rows rows (some limit) = take limit rows
