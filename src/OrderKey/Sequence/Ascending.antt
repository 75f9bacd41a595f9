-- ===== src/OrderKey/Sequence/Ascending.antt =====
-- `keysForSequence` returns as many keys as it is asked for, ascending strictly between the bounds.
use react_native_dblayer.Base.{
  ℕ, zero, suc, ◌+◌, ◌-◌, ◌*◌, ◌/◌, ◌^◌, ◌≤◌, ◌<◌, ◌≡◌, refl, Bool-cases, inl, inr, Option, none,
  some, List, [], ◌∷◌, arith, length, ltb, subst, sym,
}
use react_native_dblayer.Base.Str.{Str}
use native.Mathlib.Nat.{pow-le-pow_right}
use react_native_dblayer.OrderKey.{max_sequence_key_length, characters}
use react_native_dblayer.OrderKey.Double.{
  safe_limit, round_double-exact, floor_quotient, floor_quotient-exact,
}
use react_native_dblayer.OrderKey.Between.{
  IsBound, AreOrdered, IsBelow, key_between-IsBetween, every_digit_of_key,
}
use react_native_dblayer.OrderKey.Sequence.{
  Bounds, padded_value, after_floor_at, ceiling_at, bounds_at, width, Sizing, invalid, sized,
  too_tight, fits, size_from, chain, even_keys, from_sizing, first_size, keys_for_sequence,
}
use react_native_dblayer.OrderKey.Sequence.Numerals.{
  reads, padded_from-eq-reads, reads-bounds, str_lt_of_padded_lower, str_lt_of_padded_upper,
}
use react_native_dblayer.OrderKey.Sequence.Even.{
  Ascends, LiesUnder, LiesOver, LiesUnder-mono, even_keys-Ascends, length-even_keys,
}

-- The bounds at one size hold what the sizing loop reads them for.
record IsFaithful (lower upper : Option Str) (size : ℕ) (b : Bounds) : Type 0 where
  under : LiesUnder lower size b.after_floor
  over : LiesOver upper size b.ceiling
  in_range : b.ceiling ≤ 62 ^ size

-- Keys of up to 8 characters stand for numbers that doubles hold exactly.
pow-safe : (size : ℕ) → size ≤ 8 → 62 ^ size + 1 < safe_limit
pow-safe zero h = omega arith
pow-safe (suc n) h = let top : 62 ^ suc n ≤ 62 ^ 8 = pow-le-pow_right (omega arith) h in omega arith

floor-LiesUnder :
    (lower : Option Str) (size : ℕ)
    → IsBound lower
    → size ≤ 8
    → (a : ℕ) × (after_floor_at lower size ≡ some a) × LiesUnder lower size a
unfolding after_floor_at padded_value
floor-LiesUnder none size h short = (0, refl, record { apply = λ t ht e k. tt })
floor-LiesUnder (some l) size h short =
    let d = every_digit_of_key l h in
    (
      reads 0 l size + 1,
      rw (padded_from-eq-reads 0 l size d (omega (arith, pow-safe size short)), after_floor_at),
      record { apply = λ t ht e k. str_lt_of_padded_lower 0 l t size d ht e (omega arith) },
    )

ceiling-LiesOver :
    (upper : Option Str) (size : ℕ)
    → IsBound upper
    → size ≤ 8
    → (c : ℕ) × (ceiling_at upper size ≡ some c) × LiesOver upper size c × (c ≤ 62 ^ size)
unfolding ceiling_at padded_value
ceiling-LiesOver none size h short = (
  62 ^ size,
  rw (round_double-exact (62 ^ size) (omega (arith, pow-safe size short))) refl,
  record { apply = λ t ht e k. tt },
  omega arith,
)
ceiling-LiesOver (some u) size h short =
    let d = every_digit_of_key u h in
    (
      reads 0 u size,
      padded_from-eq-reads 0 u size d (omega (arith, pow-safe size short)),
      record { apply = λ t ht e k. str_lt_of_padded_upper 0 t u size ht d e k },
      omega (arith, reads-bounds 0 u size d),
    )

bounds_at-IsFaithful :
    (lower upper : Option Str) (size : ℕ)
    → IsBound lower
    → IsBound upper
    → size ≤ 8
    → (b : Bounds) × (bounds_at lower upper size ≡ some b) × IsFaithful lower upper size b
unfolding bounds_at
bounds_at-IsFaithful lower upper size hl hu short =
    let (a, ea, under) = floor-LiesUnder lower size hl short in
    let (c, ec, over, fit) = ceiling-LiesOver upper size hu short in
    (
      record { after_floor = a; ceiling = c },
      rw (ea, bounds_at) (rw ec),
      record { under = under; over = over; in_range = fit },
    )

-- What the loop may end with.
abbrev IsProper : ℕ → Option Str → Option Str → Sizing → Type 0
IsProper count lower upper invalid = ⊥
IsProper count lower upper too_tight = Unit
IsProper count lower upper (sized size b) =
    (0 < size) × (size ≤ 8) × IsFaithful lower upper size b × (2 * (count + 1) ≤ width b)

module _ (count : ℕ) (lower upper : Option Str) (hl : IsBound lower) (hu : IsBound upper) where
  fits-IsProper :
      (size : ℕ) (longer : Sizing)
      → 0 < size
      → size ≤ 8
      → IsProper count lower upper longer
      → IsProper count lower upper (fits count size (bounds_at lower upper size) longer)
  unfolding fits
  fits-IsProper size longer pos short h =
      let (b, e, f) = bounds_at-IsFaithful lower upper size hl hu short in
      rw (e, fits)
        (elim (Bool-cases (ltb (width b) (2 * (count + 1)))) [
          | inl tight ↦ rw tight h
          | inr wide ↦ rw wide (pos, short, f, ground arith)
        ])

  size_from-IsProper :
      (room size : ℕ)
      → 0 < size
      → room + size ≤ 8
      → IsProper count lower upper (size_from count lower upper room size)
  unfolding size_from
  size_from-IsProper zero size pos short = fits-IsProper size too_tight pos (omega arith) tt
  size_from-IsProper (suc room) size pos short =
      fits-IsProper size _ pos (omega arith)
        (size_from-IsProper room (size + 1) (omega arith) (omega arith))

AreOrdered-of_IsBelow : (k : Str) (upper : Option Str) → IsBelow k upper → AreOrdered (some k) upper
AreOrdered-of_IsBelow k none h = tt
AreOrdered-of_IsBelow k (some u) h = h

-- The keys that a call returns, as many as asked for, ascending between the bounds.
abbrev pub Sequences : ℕ → Option Str → Option Str → Option (List Str) → Type 0
Sequences count lower upper result =
    (keys : List Str) × (result ≡ some keys) × (length keys ≡ count) × Ascends lower keys upper

chain-Sequences :
    (count : ℕ) (lower upper : Option Str)
    → IsBound lower
    → IsBound upper
    → AreOrdered lower upper
    → Sequences count lower upper (chain count lower upper)
unfolding chain
chain-Sequences zero lower upper hl hu o = ([], refl, refl, tt)
chain-Sequences (suc count) lower upper hl hu o =
    let (k, e, valid, above, below) = key_between-IsBetween lower upper hl hu o in
    let (ks, es, size, rest) =
      chain-Sequences count (some k) upper valid hu (AreOrdered-of_IsBelow k upper below) in
    (k ∷ ks, rw (e, chain) (rw es), omega arith, (valid, above, below, rest))

width-exact :
    (b : Bounds) (size : ℕ)
    → size ≤ 8
    → b.ceiling ≤ 62 ^ size
    → width b ≡ b.ceiling + 1 - b.after_floor
unfolding width
width-exact b size short fit =
    round_double-exact (b.ceiling + 1 - b.after_floor) (omega (arith, pow-safe size short))

step_fits : (count w : ℕ) → 2 * (count + 1) ≤ w → 2 ≤ w / (count + 1)
step_fits count w h = grind arith

steps_fit : (count w : ℕ) → w / (count + 1) * (count + 1) ≤ w
steps_fit count w = grind arith

from_sizing-Sequences :
    (count : ℕ) (lower upper : Option Str) (s : Sizing)
    → IsBound lower
    → IsBound upper
    → AreOrdered lower upper
    → IsProper count lower upper s
    → Sequences count lower upper (from_sizing count lower upper s)
unfolding from_sizing
from_sizing-Sequences count lower upper invalid hl hu o h = absurd h
from_sizing-Sequences count lower upper too_tight hl hu o h =
    chain-Sequences count lower upper hl hu o
from_sizing-Sequences count lower upper (sized zero b) hl hu o h = absurd (omega arith)
from_sizing-Sequences count lower upper (sized (suc m) b) hl hu o (pos, short, f, wide) =
    let exact = width-exact b (suc m) short f.in_range in
    let fit : b.ceiling < safe_limit = omega (arith, pow-safe (suc m) short, f.in_range) in
    let step = floor_quotient (width b) (count + 1) in
    let is_step : step ≡ width b / (count + 1) =
      floor_quotient-exact (width b) (count + 1)
        (omega (arith, exact, pow-safe (suc m) short, f.in_range)) in
    let two : 2 ≤ step = omega (arith, is_step, step_fits count (width b) wide) in
    let all : step * (count + 1) ≤ width b =
      subst (λ k. k * (count + 1) ≤ width b) (sym is_step) (steps_fit count (width b)) in
    (
      even_keys b.after_floor step (suc m) 1 count,
      refl,
      length-even_keys b.after_floor step (suc m) 1 count,
      even_keys-Ascends lower upper b.after_floor step m 1 count b.ceiling two (omega arith)
          f.in_range (omega (arith, fit)) (omega (arith, exact, all, two))
          (LiesUnder-mono lower (suc m) b.after_floor _ (omega (arith, two)) f.under) f.over,
    )

-- Between bounds that are absent or valid keys of up to 8 characters, the lower below the upper
-- where both are there, `keysForSequence` throws nothing and returns exactly `count` valid keys, in
-- strictly ascending order and strictly between the bounds.
pub keys_for_sequence-Ascends :
    (count : ℕ) (lower upper : Option Str)
    → IsBound lower
    → IsBound upper
    → AreOrdered lower upper
    → length (characters lower) ≤ max_sequence_key_length
    → length (characters upper) ≤ max_sequence_key_length
    → Sequences count lower upper (keys_for_sequence count lower upper)
unfolding keys_for_sequence
keys_for_sequence-Ascends zero lower upper hl hu o sl su = ([], refl, refl, tt)
keys_for_sequence-Ascends (suc count) lower upper hl hu o sl su =
    let size = first_size lower upper in
    from_sizing-Sequences (suc count) lower upper _ hl hu o (
      size_from-IsProper (suc count) lower upper hl hu (max_sequence_key_length - size) size
        (omega arith) (omega arith))
