-- ===== src/OrderKey/Sequence.antt =====
-- `keysForSequence` of src/core/orderKey.ts. Every sum, product and quotient of key values is
-- rounded as the source's doubles are. Counts and indexes are those of arrays and stay exact.
pub mod Numerals
pub mod ToKey
pub mod Even
pub mod Ascending
use react_native_dblayer.Base.{
  ℕ, zero, suc, ◌+◌, ◌-◌, ◌*◌, ◌/◌, ◌%◌, ◌^◌, max, Option, none, some, List, [], ◌∷◌, ltb, ◌==◌,
  if◌then◌else◌, length,
}
use react_native_dblayer.OrderKey.Double.{round_double, floor_quotient}
use react_native_dblayer.Base.Str.{Str}
use react_native_dblayer.OrderKey.{
  index_of, digit_at, base, max_sequence_key_length, characters, key_between,
}

-- `paddedValue`: the key read as a number of `length` digits; a character out of the alphabet throws.
unfoldable pub padded_from : ℕ → Str → ℕ → Option ℕ
unfolding round_double
padded_from value key zero = some value
padded_from value [] (suc n) = padded_from (round_double (value * base)) [] n
padded_from value (c ∷ s) (suc n) = elim (index_of c) [
  | none ↦ none
  | some digit ↦ padded_from (round_double (round_double (value * base) + digit)) s n
]

unfoldable pub padded_value : Str → ℕ → Option ℕ
unfolding padded_from
padded_value key n = padded_from 0 key n

-- `toKey`: the digits of `remaining`, the last one first, put before `key`.
unfoldable pub to_key_from : Str → ℕ → ℕ → Str
unfolding floor_quotient
to_key_from key remaining zero = key
to_key_from key remaining (suc n) =
    to_key_from (digit_at (remaining % base) ∷ key) (floor_quotient remaining base) n

unfoldable pub to_key : ℕ → ℕ → Str
unfolding to_key_from
to_key value n = to_key_from [] value n

-- `{floor, ceiling}`, with `floor + 1` in place of `floor`, which is -1 where no lower bound is.
pub record Bounds : Type 0 where
  pub after_floor : ℕ
  pub ceiling : ℕ

unfoldable pub after_floor_at : Option Str → ℕ → Option ℕ
unfolding padded_value
after_floor_at none size = some 0
after_floor_at (some lower) size = elim (padded_value lower size) [
  | none ↦ none
  | some v ↦ some (v + 1)
]

unfoldable pub ceiling_at : Option Str → ℕ → Option ℕ
unfolding padded_value round_double
ceiling_at none size = some (round_double (base ^ size))
ceiling_at (some upper) size = padded_value upper size

unfoldable pub bounds_at : Option Str → Option Str → ℕ → Option Bounds
bounds_at lower upper size = elim (after_floor_at lower size) [
  | none ↦ none
  | some a ↦ elim (ceiling_at upper size) [
    | none ↦ none
    | some c ↦ some (record { after_floor = a; ceiling = c })
  ]
]

-- `ceiling - floor`.
unfoldable pub width : Bounds → ℕ
unfolding round_double
width b = round_double (b.ceiling + 1 - b.after_floor)

-- What the sizing loop ends with: an error, a size with its bounds, or too tight bounds.
pub data Sizing : Type 0 where
  invalid : Sizing
  sized : ℕ → Bounds → Sizing
  too_tight : Sizing

-- The test of the `while` loop at one size; `longer` is the loop at the next size.
unfoldable pub fits : ℕ → ℕ → Option Bounds → Sizing → Sizing
unfolding width
fits count size none longer = invalid
fits count size (some b) longer = if ltb (width b) (2 * (count + 1)) then longer else sized size b

-- The loop from `size`, where `room` more sizes are allowed, up to 8.
unfoldable pub size_from : ℕ → Option Str → Option Str → ℕ → ℕ → Sizing
unfolding fits
size_from count lower upper zero size = fits count size (bounds_at lower upper size) too_tight
size_from count lower upper (suc room) size =
    fits count size (bounds_at lower upper size) (size_from count lower upper room (size + 1))

-- The chained walk for bounds that are too tight.
unfoldable pub chain : ℕ → Option Str → Option Str → Option (List Str)
chain zero previous upper = some []
chain (suc count) previous upper = elim (key_between previous upper) [
  | none ↦ none
  | some next ↦ elim (chain count (some next) upper) [
    | none ↦ none
    | some keys ↦ some (next ∷ keys)
  ]
]

-- The value of one key, moved off the multiples of 62, whose last digit is the minimal one.
unfoldable pub key_value : ℕ → ℕ → ℕ → ℕ
unfolding round_double
key_value after_floor step index =
    let value = round_double (after_floor + round_double (step * index) - 1) in
    if value % base == 0 then round_double (value + 1) else value

-- The keys number `index` to `index + remaining - 1`.
unfoldable pub even_keys : ℕ → ℕ → ℕ → ℕ → ℕ → List Str
unfolding key_value
even_keys after_floor step size index zero = []
even_keys after_floor step size index (suc remaining) =
    to_key (key_value after_floor step index) size
    ∷ even_keys after_floor step size (index + 1) remaining

from_sizing : ℕ → Option Str → Option Str → Sizing → Option (List Str)
unfolding width floor_quotient
from_sizing count lower upper invalid = none
from_sizing count lower upper too_tight = chain count lower upper
from_sizing count lower upper (sized size b) =
    some (even_keys b.after_floor (floor_quotient (width b) (count + 1)) size 1 count)

abbrev pub first_size : Option Str → Option Str → ℕ
first_size lower upper = max 1 (max (length (characters lower)) (length (characters upper)))

unfoldable pub keys_for_sequence : ℕ → Option Str → Option Str → Option (List Str)
unfolding from_sizing
keys_for_sequence zero lower upper = some []
keys_for_sequence (suc count) lower upper =
    let size = first_size lower upper in
    from_sizing (suc count) lower upper
      (size_from (suc count) lower upper (max_sequence_key_length - size) size)
