-- ===== src/CompositeKey.antt =====
-- `compositeKey` and `parseCompositeKey` of src/core/serialize.ts, over lists of code units.
pub mod Decimal
pub mod RoundTrip
use react_native_dblayer.Base.{
  ℕ, zero, suc, ◌+◌, ◌-◌, ◌*◌, ◌/◌, ◌%◌, ◌^◌, Bool, true, false, ◌&&◌, Option, none, some, List, [],
  ◌∷◌, ◌++◌, ltb, leb, ◌==◌, if◌then◌else◌, length, take, drop, every,
}
use react_native_dblayer.Base.Str.{Str}

-- `Number.MAX_SAFE_INTEGER`.
abbrev pub max_safe_integer : ℕ
max_safe_integer = 2 ^ 53 - 1

-- The decimal digits of `n` before `tail`; each round of fuel prints one digit.
unfoldable pub decimal_from : ℕ → ℕ → Str → Str
decimal_from zero n tail = tail
decimal_from (suc fuel) n tail =
    let rest = decimal_from fuel (n / 10) ((n % 10 + 48) ∷ tail) in
    if ltb n 10 then (n % 10 + 48) ∷ tail else rest

-- `${n}`: a number has at most as many digits as its successor counts.
unfoldable pub decimal : ℕ → Str
unfolding decimal_from
decimal n = decimal_from (suc n) n []

-- `${part.length}:${part}`
unfoldable pub segment : Str → Str
segment part = decimal (length part) ++ 58 ∷ part

unfoldable pub composite_key : List Str → Str
unfolding segment
composite_key [] = []
composite_key (part ∷ parts) = segment part ++ composite_key parts

unfoldable pub is_decimal_digit : ℕ → Bool
is_decimal_digit c = leb 48 c && leb c 57

-- `indexOf(':')`: the text before the first colon and the text behind it.
unfoldable pub split_colon : Str → Option (Str × Str)
split_colon [] = none
split_colon (c ∷ s) = elim (c == 58) [
  | true ↦ some ([], s)
  | false ↦ elim (split_colon s) [ none ↦ none | some (before, after) ↦ some (c ∷ before, after) ]
]

-- /^\d+$/
unfoldable pub is_decimal : Str → Bool
unfolding is_decimal_digit
is_decimal [] = false
is_decimal (c ∷ s) = every is_decimal_digit (c ∷ s)

-- `Number(rawLength)`
unfoldable pub to_number : ℕ → Str → ℕ
to_number value [] = value
to_number value (c ∷ s) = to_number (value * 10 + (c - 48)) s

-- One segment: its text and what is behind it, or nothing where the text is malformed or cut off.
unfoldable pub read_segment : Str → Option (Str × Str)
unfolding split_colon is_decimal to_number
read_segment rest = elim (split_colon rest) [
  | none ↦ none
  | some (raw_length, after) ↦
      if is_decimal raw_length
        && (leb (to_number 0 raw_length) max_safe_integer
            && leb (to_number 0 raw_length) (length after))
      then some (take (to_number 0 raw_length) after, drop (to_number 0 raw_length) after)
      else none
]

-- `parts.push` before the next rounds, whose result is given.
unfoldable pub after_part : Str → Option (Option (List Str)) → Option (Option (List Str))
after_part part none = none
after_part part (some none) = some none
after_part part (some (some parts)) = some (some (part ∷ parts))

-- The loop, with the offset kept as the text behind it: `none` where the fuel runs out before the
-- loop ends, `some none` where it returns undefined.
unfoldable pub parse_from : ℕ → Str → Option (Option (List Str))
unfolding after_part
parse_from fuel [] = some (some [])
parse_from zero (c ∷ s) = none
parse_from (suc fuel) (c ∷ s) = elim (read_segment (c ∷ s)) [
  | none ↦ some none
  | some (part, rest) ↦ after_part part (parse_from fuel rest)
]

-- Every round passes a character, so the length is fuel enough.
unfoldable pub parse_composite_key : Str → Option (List Str)
unfolding parse_from
parse_composite_key key = elim (parse_from (length key) key) [ none ↦ none | some parts ↦ parts ]
