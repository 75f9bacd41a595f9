-- ===== src/OrderKey/Sequence/Numerals.antt =====
-- Keys of one length as numbers in base 62.
use native.Mathlib.Nat.{pow-suc}
use react_native_dblayer.Base.{
  ℕ, zero, suc, ◌+◌, ◌*◌, ◌^◌, ◌≤◌, ◌<◌, ◌≡◌, refl, true, some, [], ◌∷◌, ltb, ◌==◌, arith, every,
  length, subst, Bool-cases, ◌⊎◌, inl, inr,
}
use react_native_dblayer.Base.Str.{Str, str_lt}
use react_native_dblayer.OrderKey.{is_digit}
use react_native_dblayer.OrderKey.Double.{safe_limit, round_double, round_double-exact}
use react_native_dblayer.OrderKey.Digits.{rank, index_of-digit, rank-lt, rank-lt-base}
use react_native_dblayer.OrderKey.Sequence.{padded_from}

-- The number that digits stand for after `value`, padded by zeros to `n` digits.
abbrev pub reads : ℕ → Str → ℕ → ℕ
reads value s zero = value
reads value [] (suc n) = reads (value * 62) [] n
reads value (c ∷ s) (suc n) = reads (value * 62 + rank c) s n

pub pow_step : (n : ℕ) → 62 ^ suc n ≡ 62 ^ n * 62
pow_step n = pow-suc 62 n

pow_pos : (n : ℕ) → 0 < 62 ^ n
pow_pos zero = omega arith
pow_pos (suc n) = rw (pow_step n) (omega (arith, pow_pos n))

product_step :
    (value digit p : ℕ) → digit < 62 → (value * 62 + digit + 1) * p ≤ (value + 1) * (p * 62)
product_step value digit p h = grind arith

under_product : (x p limit : ℕ) → (x + 1) * p ≤ limit → 0 < p → x < limit
under_product x zero limit h pos = absurd (omega arith)
under_product x (suc p) limit h pos = let q : x + 1 ≤ (x + 1) * suc p = grind arith in omega arith

-- One more digit stays in the range where doubles are exact.
digit_fits :
    (value digit n : ℕ)
    → digit < 62
    → (value + 1) * 62 ^ suc n ≤ safe_limit
    → ((value * 62 + digit + 1) * 62 ^ n ≤ safe_limit)
      × (round_double (round_double (value * 62) + digit) ≡ value * 62 + digit)
      × (round_double (value * 62) ≡ value * 62)
digit_fits value digit n d h =
    let wide : (value + 1) * (62 ^ n * 62) ≤ safe_limit =
      subst (λ p. (value + 1) * p ≤ safe_limit) (pow_step n) h in
    let fit : (value * 62 + digit + 1) * 62 ^ n ≤ safe_limit =
      omega (arith, product_step value digit (62 ^ n) d) in
    let small : value * 62 + digit < safe_limit =
      under_product (value * 62 + digit) (62 ^ n) safe_limit fit (pow_pos n) in
    let product = round_double-exact (value * 62) (omega arith) in
    (fit, rw product (round_double-exact (value * 62 + digit) small), product)

-- Digits are read exactly as long as the number stays below 2 ^ 53.
pub padded_from-eq-reads :
    (value : ℕ) (s : Str) (n : ℕ)
    → every is_digit s ≡ true
    → (value + 1) * 62 ^ n ≤ safe_limit
    → padded_from value s n ≡ some (reads value s n)
unfolding every padded_from
padded_from-eq-reads value s zero h fit = refl
padded_from-eq-reads value [] (suc n) h fit =
    let (later, sum, product) = digit_fits value 0 n (omega arith) fit in
    rw product (padded_from-eq-reads (value * 62) [] n h (omega (arith, later)))
padded_from-eq-reads value (c ∷ s) (suc n) h fit =
    let (later, sum, product) = digit_fits value (rank c) n (rank-lt-base c (ground arith)) fit in
    rw (index_of-digit c (ground arith), padded_from)
      (rw sum (padded_from-eq-reads (value * 62 + rank c) s n (ground arith) later))

pub reads-bounds :
    (value : ℕ) (s : Str) (n : ℕ)
    → every is_digit s ≡ true
    → (value * 62 ^ n ≤ reads value s n) × (reads value s n < (value + 1) * 62 ^ n)
unfolding every
reads-bounds value s zero h = omega arith
reads-bounds value [] (suc n) h =
    rw (pow_step n) (omega (arith, reads-bounds (value * 62) [] n h, product_step value 0 (62 ^ n)))
reads-bounds value (c ∷ s) (suc n) h = rw (pow_step n) (
    omega (
      arith,
      reads-bounds (value * 62 + rank c) s n (ground arith),
      product_step value (rank c) (62 ^ n) (rank-lt-base c (ground arith)),
    ))

product_mono : (a b p : ℕ) → a < b → (a + 1) * p ≤ b * p
product_mono a b p h = grind arith

product_le : (a d p : ℕ) → a * p ≤ (a + d) * p
product_le a d p = grind arith

reads-nil : (value n : ℕ) → reads value [] n ≡ value * 62 ^ n
reads-nil value zero = omega arith
reads-nil value (suc n) = rw (pow_step n) (omega (arith, reads-nil (value * 62) n))

-- The first digit that differs decides.
reads-lt :
    (a b : ℕ) (s t : Str) (n : ℕ)
    → every is_digit s ≡ true
    → every is_digit t ≡ true
    → a < b
    → reads a s n < reads b t n
reads-lt a b s t n hs ht lt =
    omega (arith, reads-bounds a s n hs, reads-bounds b t n ht, product_mono a b (62 ^ n) lt)

compare_heads :
    (a c d : ℕ) (s t : Str) (n : ℕ)
    → every is_digit (c ∷ s) ≡ true
    → every is_digit (d ∷ t) ≡ true
    → reads a (c ∷ s) (suc n) < reads a (d ∷ t) (suc n)
    → (c < d) ⊎ ((c ≡ d) × (reads (a * 62 + rank c) s n < reads (a * 62 + rank c) t n))
unfolding every
compare_heads a c d s t n hs ht lt = elim (Bool-cases (ltb c d)) [
  | inl less ↦ inl (ground arith)
  | inr other ↦ elim (Bool-cases (c == d)) [
    | inl same ↦ inr (ground arith, ground arith)
    | inr more ↦
        let back : rank d < rank c = rank-lt d c (ground arith) (ground arith) (ground arith) in
        absurd (
          omega (
            arith,
            reads-lt (a * 62 + rank d) (a * 62 + rank c) t s n (ground arith) (ground arith)
                (omega arith),
          ))
  ]
]

str_lt-heads :
    (c d : ℕ) (s t : Str)
    → (c < d) ⊎ ((c ≡ d) × (str_lt s t ≡ true))
    → str_lt (c ∷ s) (d ∷ t) ≡ true
unfolding str_lt
str_lt-heads c d s t (inl h) = ground arith
str_lt-heads c d s t (inr h) = ground arith

-- A bound read with padding lies below a key of full length that stands for more.
pub str_lt_of_padded_lower :
    (a : ℕ) (s t : Str) (n : ℕ)
    → every is_digit s ≡ true
    → every is_digit t ≡ true
    → length t ≡ n
    → reads a s n < reads a t n
    → str_lt s t ≡ true
unfolding every
str_lt_of_padded_lower a s t zero hs ht e lt = absurd (omega arith)
str_lt_of_padded_lower a s [] (suc n) hs ht e lt = absurd (omega arith)
str_lt_of_padded_lower a [] (d ∷ t) (suc n) hs ht e lt = unfold str_lt in refl
str_lt_of_padded_lower a (c ∷ s) (d ∷ t) (suc n) hs ht e lt =
    let rest =
      str_lt_of_padded_lower (a * 62 + rank c) s t n (ground arith) (ground arith) (omega arith) in
    str_lt-heads c d s t (elim (compare_heads a c d s t n hs ht lt) [
      | inl h ↦ inl h
      | inr (same, h) ↦ inr (same, rest h)
    ])

-- A key of full length lies below a bound that stands for more when read with padding.
pub str_lt_of_padded_upper :
    (a : ℕ) (t u : Str) (n : ℕ)
    → every is_digit t ≡ true
    → every is_digit u ≡ true
    → length t ≡ n
    → reads a t n < reads a u n
    → str_lt t u ≡ true
unfolding every
str_lt_of_padded_upper a t u zero ht hu e lt = absurd (omega arith)
str_lt_of_padded_upper a [] u (suc n) ht hu e lt = absurd (omega arith)
str_lt_of_padded_upper a (d ∷ t) [] (suc n) ht hu e lt = absurd (
    omega (
      arith,
      reads-nil (a * 62) n,
      reads-bounds (a * 62 + rank d) t n (ground arith),
      product_le (a * 62) (rank d) (62 ^ n),
    ))
str_lt_of_padded_upper a (d ∷ t) (c ∷ u) (suc n) ht hu e lt =
    let rest =
      str_lt_of_padded_upper (a * 62 + rank d) t u n (ground arith) (ground arith) (omega arith) in
    str_lt-heads d c t u (elim (compare_heads a d c t u n ht hu lt) [
      | inl h ↦ inl h
      | inr (same, h) ↦ inr (same, rest h)
    ])
