-- ===== src/OrderKey/Double.antt =====
-- The numbers of src/core/orderKey.ts are JavaScript doubles. A natural number stands for a whole
-- double: up to 53 binary digits are kept, and what a sum, a product or a quotient has more is
-- rounded to the nearest, a tie to the even one. The range ends at 2 ^ 1024, which a key of more
-- than 171 characters passes; numbers past it are not modelled. A power is rounded to the nearest
-- as well.
use react_native_dblayer.Base.{
  ℕ, zero, suc, ◌+◌, ◌*◌, ◌/◌, ◌%◌, ◌<◌, ◌≡◌, ◌||◌, ◌&&◌, true, false, ltb, ◌==◌, if◌then◌else◌,
  arith,
}

-- `Number.MAX_SAFE_INTEGER + 1`
abbrev pub safe_limit : ℕ
safe_limit = 9007199254740992

-- The least power of two, from `unit` on, of which `n / d` is less than 2 ^ 53.
unit_for : ℕ → ℕ → ℕ → ℕ → ℕ
unit_for zero unit n d = unit
unit_for (suc fuel) unit n d = elim (ltb n (safe_limit * unit * d)) [
  | true ↦ unit
  | false ↦ unit_for fuel (2 * unit) n d
]

-- The multiple of `unit` that is nearest to `n / d`.
nearest : ℕ → ℕ → ℕ → ℕ
nearest n d unit =
    let below = n / (unit * d) in
    let rest = 2 * (n % (unit * d)) in
    if ltb (unit * d) rest || (rest == unit * d && below % 2 == 1)
    then (below + 1) * unit
    else below * unit

-- A whole number as a double. The unit doubles at each step, so `n` steps find it.
unfoldable pub round_double : ℕ → ℕ
unfolding unit_for nearest
round_double n = elim (ltb n safe_limit) [ true ↦ n | false ↦ nearest n 1 (unit_for n 1 n 1) ]

-- `Math.floor(n / d)` of doubles, for `0 < d < 2 ^ 53`. Below 2 ^ 53 the quotient lies further
-- from the next whole number than it is rounded, so its whole part is the exact one; from there
-- on it is rounded to 53 digits, some of them after the point.
unfoldable pub floor_quotient : ℕ → ℕ → ℕ
unfolding unit_for nearest
floor_quotient n d = elim (ltb n safe_limit) [
  | true ↦ n / d
  | false ↦ nearest (n * safe_limit) d (unit_for n 1 (n * safe_limit) d) / safe_limit
]

pub round_double-exact : (n : ℕ) → n < safe_limit → round_double n ≡ n
unfolding round_double
round_double-exact n h = ground arith

pub floor_quotient-exact : (n d : ℕ) → n < safe_limit → floor_quotient n d ≡ n / d
unfolding floor_quotient
floor_quotient-exact n d h = ground arith
