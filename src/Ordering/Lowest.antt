-- ===== src/Ordering/Lowest.antt =====
-- `pickLowestRow` of src/core/ordering.ts picks a row that no other row precedes.
use react_native_dblayer.Base.{
  ◌≡◌, ◌⊎◌, inl, inr, refl, sym, ◌∙◌, Bool, true, false, Option, some, List, [], ◌∷◌, arith,
  Ordering, Bool-cases, ℕ, zero, suc, get_elem?, not, ◌&&◌,
}
use react_native_dblayer.Base.Str.{
  Str, str_eq_iff, str_lt_total, str_lt, str_lt_irrefl, str_lt_trans, compare_codepoints,
}
use react_native_dblayer.Ordering.{
  is_lt, tie_break, with_id_tie_break, lowest_from, pick_lowest_row,
}

-- What the package relies on of a comparator: a weak order that never returns NaN.
pub record IsWeakOrder {ℓ} {Row : Type ℓ} (compare : Row → Row → Option Ordering) : Type ℓ where
  pub total :
      (a b : Row)
      → (compare a b ≡ some Ordering.lt)
        ⊎ ((compare a b ≡ some Ordering.eq) ⊎ (compare a b ≡ some Ordering.gt))
  pub self : (a : Row) → compare a a ≡ some Ordering.eq
  pub flip : (a b : Row) → compare a b ≡ some Ordering.gt → compare b a ≡ some Ordering.lt
  pub eq_sym : (a b : Row) → compare a b ≡ some Ordering.eq → compare b a ≡ some Ordering.eq
  pub lt_trans :
      (a b c : Row)
      → compare a b ≡ some Ordering.lt
      → compare b c ≡ some Ordering.lt
      → compare a c ≡ some Ordering.lt
  pub eq_lt :
      (a b c : Row)
      → compare a b ≡ some Ordering.eq
      → compare b c ≡ some Ordering.lt
      → compare a c ≡ some Ordering.lt
  pub lt_eq :
      (a b c : Row)
      → compare a b ≡ some Ordering.lt
      → compare b c ≡ some Ordering.eq
      → compare a c ≡ some Ordering.lt
  pub eq_trans :
      (a b c : Row)
      → compare a b ≡ some Ordering.eq
      → compare b c ≡ some Ordering.eq
      → compare a c ≡ some Ordering.eq

compare_codepoints-lt : (s t : Str) → is_lt (compare_codepoints s t) ≡ str_lt s t
unfolding compare_codepoints
compare_codepoints-lt s t = ground arith

str_lt_split : (a b c : Str) → str_lt a c ≡ true → str_lt a b ≡ false → str_lt b c ≡ true
str_lt_split a b c h k = elim (Bool-cases (str_lt b a)) [
  | inl below ↦ str_lt_trans b a c below h
  | inr apart ↦ rw (sym ((str_eq_iff a b).0 (str_lt_total a b k apart))) h
]

tie_break-lt : (s t : Str) → is_lt (tie_break (some Ordering.lt) s t) ≡ true
unfolding tie_break
tie_break-lt s t = refl

tie_break-eq : (s t : Str) → is_lt (tie_break (some Ordering.eq) s t) ≡ str_lt s t
unfolding tie_break
tie_break-eq s t = compare_codepoints-lt s t

tie_break-gt : (s t : Str) → is_lt (tie_break (some Ordering.gt) s t) ≡ false
unfolding tie_break
tie_break-gt s t = refl

module _ {ℓ} {Row : Type ℓ} (id_of : Row → Str) (compare : Row → Row → Option Ordering) where
  -- One row precedes another, by the comparator and then by id.
  abbrev pub precedes : Row → Row → Bool
  precedes a b = is_lt (with_id_tie_break id_of compare a b)

  precedes_of_lt : (a b : Row) → compare a b ≡ some Ordering.lt → precedes a b ≡ true
  unfolding with_id_tie_break
  precedes_of_lt a b h = rw h (tie_break-lt (id_of a) (id_of b))

  precedes_of_eq :
      (a b : Row) → compare a b ≡ some Ordering.eq → precedes a b ≡ str_lt (id_of a) (id_of b)
  unfolding with_id_tie_break
  precedes_of_eq a b h = rw h (tie_break-eq (id_of a) (id_of b))

  precedes_of_gt : (a b : Row) → compare a b ≡ some Ordering.gt → precedes a b ≡ false
  unfolding with_id_tie_break
  precedes_of_gt a b h = rw h (tie_break-gt (id_of a) (id_of b))

  precedes_irrefl : IsWeakOrder compare → (a : Row) → precedes a a ≡ false
  precedes_irrefl w a = precedes_of_eq a a (w.self a) ∙ str_lt_irrefl (id_of a)

  precedes_trans :
      IsWeakOrder compare
      → (a b c : Row) → precedes a b ≡ true
      → precedes b c ≡ true
      → precedes a c ≡ true
  precedes_trans w a b c h k = ground (
    arith,
    w.total a b,
    w.total b c,
    w.lt_trans a b c,
    w.eq_lt a b c,
    w.lt_eq a b c,
    w.eq_trans a b c,
    precedes_of_eq a b,
    precedes_of_gt a b,
    precedes_of_eq b c,
    precedes_of_gt b c,
    precedes_of_lt a c,
    precedes_of_eq a c,
    str_lt_trans (id_of a) (id_of b) (id_of c),
  )

  -- A row that precedes another stands before or behind any third.
  precedes_split :
      IsWeakOrder compare
      → (a b c : Row) → precedes a c ≡ true
      → precedes a b ≡ false
      → precedes b c ≡ true
  precedes_split w a b c h k = ground (
    arith,
    w.total a b,
    w.total a c,
    w.flip a b,
    w.eq_sym a b,
    w.lt_trans b a c,
    w.lt_eq b a c,
    w.eq_lt b a c,
    w.eq_trans b a c,
    precedes_of_lt a b,
    precedes_of_eq a b,
    precedes_of_lt b c,
    precedes_of_eq b c,
    precedes_of_eq a c,
    precedes_of_gt a c,
    str_lt_split (id_of a) (id_of b) (id_of c),
  )

  abbrev pub none_precede : List Row → Row → Bool
  none_precede [] best = true
  none_precede (row ∷ rows) best = not (precedes row best) && none_precede rows best

  lowest_from-least :
      IsWeakOrder compare
      → (best : Row) (rows : List Row)
      → (precedes best (lowest_from id_of compare best rows) ≡ false)
        × (none_precede rows (lowest_from id_of compare best rows) ≡ true)
  unfolding lowest_from
  lowest_from-least w best [] = (precedes_irrefl w best, refl)
  lowest_from-least w best (row ∷ rows) = elim (Bool-cases (precedes row best)) [
    | inl lower ↦
        let (least, rest) = lowest_from-least w row rows in
        let found = lowest_from id_of compare row rows in
        rw lower (
          ground (arith, least, precedes_trans w row best found lower),
          ground (arith, least, rest),
        )
    | inr higher ↦
        let (least, rest) = lowest_from-least w best rows in
        let found = lowest_from id_of compare best rows in
        rw higher (least, ground (arith, rest, precedes_split w row best found))
  ]

  lowest_from-member :
      (best : Row) (rows : List Row)
      → (i : ℕ) × (get_elem? (best ∷ rows) i ≡ some (lowest_from id_of compare best rows))
  unfolding lowest_from
  lowest_from-member best [] = (0, refl)
  lowest_from-member best (row ∷ rows) = elim (Bool-cases (precedes row best)) [
    | inl lower ↦ let (i, e) = lowest_from-member row rows in rw lower (suc i, e)
    | inr higher ↦
        let (i, e) = lowest_from-member best rows in rw higher (behind best row rows i _ e)
  ]
    where
      behind :
          (best row : Row) (rows : List Row) (i : ℕ) (x : Row)
          → get_elem? (best ∷ rows) i ≡ some x
          → (j : ℕ) × (get_elem? (best ∷ row ∷ rows) j ≡ some x)
      behind best row rows zero x e = (0, e)
      behind best row rows (suc i) x e = (suc (suc i), e)

  -- For a comparator that is a weak order and never NaN, the pick from any rows but none returns
  -- one of them that none of them precedes, by the comparator and then by id.
  pub pick_lowest_row-least :
      IsWeakOrder compare
      → (row : Row) (rows : List Row)
      → (best : Row) × (pick_lowest_row id_of (row ∷ rows) (some compare) ≡ some best)
        × ((i : ℕ) × (get_elem? (row ∷ rows) i ≡ some best))
        × (none_precede (row ∷ rows) best ≡ true)
  unfolding pick_lowest_row
  pick_lowest_row-least w row rows =
      let (least, rest) = lowest_from-least w row rows in
      (
        lowest_from id_of compare row rows,
        refl,
        lowest_from-member row rows,
        ground (arith, least, rest),
      )

  not_precedes_at :
      (rows : List Row) (best x : Row) (i : ℕ)
      → none_precede rows best ≡ true
      → get_elem? rows i ≡ some x
      → precedes x best ≡ false
  not_precedes_at [] best x i h e = cc
  not_precedes_at (row ∷ rows) best x zero h e =
      let is_row : row ≡ x = some_inj e in rw (sym is_row) (ground arith)
    where
      some_inj : {a b : Row} → some a ≡ some b → a ≡ b
      some_inj h = cc
  not_precedes_at (row ∷ rows) best x (suc i) h e = not_precedes_at rows best x i (ground arith) e

  ids_of_tie :
      IsWeakOrder compare
      → (a b : Row) → precedes a b ≡ false
      → precedes b a ≡ false
      → id_of a ≡ id_of b
  ids_of_tie w a b h k = (str_eq_iff (id_of a) (id_of b)).0 (
      ground (
        arith,
        w.total a b,
        w.flip a b,
        w.eq_sym a b,
        precedes_of_lt a b,
        precedes_of_lt b a,
        precedes_of_eq a b,
        precedes_of_eq b a,
        str_lt_total (id_of a) (id_of b),
      ))

  -- Every row of the first list stands in the second.
  abbrev pub AreAmong : List Row → List Row → Type ℓ
  AreAmong rows others =
      (x : Row) (i : ℕ) → get_elem? rows i ≡ some x → (j : ℕ) × (get_elem? others j ≡ some x)

  -- For a comparator that is a weak order and never NaN, the picks from two lists of the same rows,
  -- in whatever order and number they stand there, have the same id.
  pub pick_lowest_row-any_order :
      IsWeakOrder compare
      → (row other : Row) (rows others : List Row) → AreAmong (row ∷ rows) (other ∷ others)
      → AreAmong (other ∷ others) (row ∷ rows)
      → (best best' : Row) × (pick_lowest_row id_of (row ∷ rows) (some compare) ≡ some best)
        × (pick_lowest_row id_of (other ∷ others) (some compare) ≡ some best')
        × (id_of best ≡ id_of best')
  pick_lowest_row-any_order w row other rows others into back =
      let (best, e, (i, at), least) = pick_lowest_row-least w row rows in
      let (best', e', (i', at'), least') = pick_lowest_row-least w other others in
      let (j, there) = into best i at in
      let (j', there') = back best' i' at' in
      (
        best,
        best',
        e,
        e',
        ids_of_tie w best best' (not_precedes_at (other ∷ others) best' best j least' there)
            (not_precedes_at (row ∷ rows) best best' j' least there'),
      )
