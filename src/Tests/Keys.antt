-- ===== src/Tests/Keys.antt =====
-- Order keys and composite keys at concrete inputs.
use react_native_dblayer.Base.{◌≡◌, true, refl, Option, none, some, List, [], ◌∷◌, arith}
use react_native_dblayer.Base.Str.{Str, text, str_lt}
use react_native_dblayer.OrderKey.{key_between, is_order_key}
use react_native_dblayer.OrderKey.Between.{IsAbove, IsBelow, key_between-IsBetween}
use react_native_dblayer.OrderKey.{index_of, digit_at}
use react_native_dblayer.OrderKey.Double.{round_double, floor_quotient}
use react_native_dblayer.OrderKey.Sequence.{
  keys_for_sequence, even_keys, to_key, size_from, bounds_at, after_floor_at, ceiling_at,
}
use react_native_dblayer.OrderKey.Sequence.Ascending.{Sequences, keys_for_sequence-Ascends}
use react_native_dblayer.CompositeKey.{decimal, composite_key, parse_composite_key, parse_from}
use react_native_dblayer.CompositeKey.RoundTrip.{
  parse-composite_key, composite_key-injective, parse_from-parse_composite_key,
}

abbrev low : Option Str
low = some (text "A1")

abbrev high : Option Str
high = some (text "B")

key_between_run : key_between low high ≡ some (text "A1V")
unfolding key_between
key_between_run = refl

abbrev two_parts : List Str
two_parts = text "a:b" ∷ text "" ∷ []

composite_key_run : composite_key two_parts ≡ text "3:a:b0:"
unfolding composite_key decimal
composite_key_run = refl

keys_for_sequence-Ascends_example : Sequences 3 low high (keys_for_sequence 3 low high)
unfolding is_order_key str_lt
keys_for_sequence-Ascends_example =
    keys_for_sequence-Ascends 3 low high refl refl refl (omega arith) (omega arith)

-- Past 8 characters the rounding of doubles shows.
keys_for_sequence_long :
    keys_for_sequence 1 (some (text "V1KdtPvI2")) none ≡ some (text "kVfJwhxe0" ∷ [])
unfolding keys_for_sequence round_double floor_quotient index_of digit_at even_keys to_key size_from
    bounds_at after_floor_at ceiling_at
keys_for_sequence_long = refl

parse-composite_key_example : parse_composite_key (composite_key two_parts) ≡ some two_parts
parse-composite_key_example = parse-composite_key two_parts (omega arith, (omega arith, tt))

composite_key-injective_example : two_parts ≡ two_parts
composite_key-injective_example =
    composite_key-injective two_parts two_parts (omega arith, (omega arith, tt))
      (omega arith, (omega arith, tt)) refl

-- A malformed text: the second segment is cut off.
parse_from-parse_composite_key_example :
    parse_from 9 (text "1:a5:b") ≡ some (parse_composite_key (text "1:a5:b"))
parse_from-parse_composite_key_example =
    parse_from-parse_composite_key 9 (text "1:a5:b") (omega arith)

key_between-IsBetween_example :
    (key : Str) × (key_between low high ≡ some key)
    × (is_order_key key ≡ true)
    × IsAbove low key
    × IsBelow key high
unfolding is_order_key str_lt
key_between-IsBetween_example = key_between-IsBetween low high refl refl refl
