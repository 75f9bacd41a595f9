-- ===== src/Tests/Orders.antt =====
-- The pick of the lowest row at concrete inputs.
use react_native_dblayer.Base.{
  ℕ, zero, suc, ◌≡◌, refl, true, Option, some, [], ◌∷◌, arith, get_elem?, compare, Ordering,
}
use react_native_dblayer.Base.Str.{Str, text, str_lt, compare_codepoints}
use react_native_dblayer.Ordering.{pick_lowest_row, with_id_tie_break}
use react_native_dblayer.Ordering.Lowest.{
  IsWeakOrder, none_precede, AreAmong, pick_lowest_row-least, pick_lowest_row-any_order,
}

-- A row of an id and a position, compared by position.
abbrev Ranked : Type 0
Ranked = Str × ℕ

abbrev ranked_id : Ranked → Str
ranked_id row = row.0

abbrev by_rank : Ranked → Ranked → Option Ordering
by_rank a b = some (compare a.1 b.1)

by_rank-IsWeakOrder : IsWeakOrder by_rank
by_rank-IsWeakOrder = record {
  total = λ a b. ground arith;
  self = λ a. ground arith;
  flip = λ a b h. ground arith;
  eq_sym = λ a b h. ground arith;
  lt_trans = λ a b c h k. ground arith;
  eq_lt = λ a b c h k. ground arith;
  lt_eq = λ a b c h k. ground arith;
  eq_trans = λ a b c h k. ground arith;
}

abbrev second : Ranked
second = (text "b", 1)

abbrev first : Ranked
first = (text "a", 1)

pick_run : pick_lowest_row ranked_id (second ∷ first ∷ []) (some by_rank) ≡ some first
unfolding pick_lowest_row with_id_tie_break compare_codepoints str_lt
pick_run = refl

pick_lowest_row-least_example :
    (best : Ranked) × (pick_lowest_row ranked_id (second ∷ first ∷ []) (some by_rank) ≡ some best)
    × ((i : ℕ) × (get_elem? (second ∷ first ∷ []) i ≡ some best))
    × (none_precede ranked_id by_rank (second ∷ first ∷ []) best ≡ true)
pick_lowest_row-least_example =
    pick_lowest_row-least ranked_id by_rank by_rank-IsWeakOrder second (first ∷ [])

swapped : (a b : Ranked) → AreAmong ranked_id by_rank (a ∷ b ∷ []) (b ∷ a ∷ [])
swapped a b x zero e = (1, e)
swapped a b x (suc zero) e = (0, e)
swapped a b x (suc (suc i)) e = cc

pick_lowest_row-any_order_example :
    (best best' : Ranked) × (pick_lowest_row ranked_id (second ∷ first ∷ []) (some by_rank)
      ≡ some best)
    × (pick_lowest_row ranked_id (first ∷ second ∷ []) (some by_rank) ≡ some best')
    × (ranked_id best ≡ ranked_id best')
pick_lowest_row-any_order_example =
    pick_lowest_row-any_order ranked_id by_rank by_rank-IsWeakOrder second first (first ∷ [])
      (second ∷ []) (swapped second first) (swapped first second)
