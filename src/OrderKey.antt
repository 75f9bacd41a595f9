-- ===== src/OrderKey.antt =====
-- src/core/orderKey.ts: the fractional order keys of scope members. A key is a list of code units
-- over the base62 alphabet; a thrown error is `none`.
pub mod Digits
pub mod Double
pub mod Separates
pub mod Between
pub mod Sequence
use react_native_dblayer.Base.{
  ℕ, zero, suc, ◌+◌, ◌-◌, ◌*◌, ◌/◌, ◌%◌, ◌^◌, max, Bool, true, false, ◌&&◌, ◌||◌, not, Option, none,
  some, List, [], ◌∷◌, ◌++◌, ltb, leb, ◌==◌, if◌then◌else◌, length, get_elem?, every,
}
use react_native_dblayer.Base.Str.{Str, text}

abbrev pub alphabet : Str
alphabet = text "0123456789ABCDEFGHIJKLMNOPQRSTUVWXYZabcdefghijklmnopqrstuvwxyz"

abbrev pub base : ℕ
base = 62

abbrev pub max_sequence_key_length : ℕ
max_sequence_key_length = 8

-- `indexOf`, with `none` for -1.
unfoldable pub index_from : ℕ → Str → ℕ → Option ℕ
index_from i [] c = none
index_from i (a ∷ s) c = let rest = index_from (suc i) s c in if a == c then some i else rest

unfoldable pub index_of : ℕ → Option ℕ
unfolding index_from
index_of = index_from 0 alphabet

-- `ALPHABET[i]!`; the calls keep `i` below 62.
unfoldable pub digit_at : ℕ → ℕ
digit_at i = elim (get_elem? alphabet i) [ none ↦ 0 | some c ↦ c ]

-- The class [0-9A-Za-z] of the regular expression.
unfoldable pub is_digit : ℕ → Bool
is_digit c = (leb 48 c && leb c 57) || ((leb 65 c && leb c 90) || (leb 97 c && leb c 122))

-- A text over the class whose last character is not the minimal digit.
unfoldable pub is_order_key : Str → Bool
unfolding is_digit
is_order_key [] = false
is_order_key (c ∷ []) = is_digit c && not (c == 48)
is_order_key (c ∷ d ∷ s) = is_digit c && is_order_key (d ∷ s)

-- The return of one round, after the two characters were found to differ.
unfoldable pub separate : Str → ℕ → Str → Option ℕ → Option ℕ → Option Str
unfolding digit_at
separate prefix c rest none upper = none
separate prefix c rest (some i) none = none
separate prefix c rest (some i) (some j) =
    if ltb j i
    then none
    else if ltb 1 (j - i)
    then some (prefix ++ digit_at ((i + j) / 2) ∷ [])
    else some (prefix ++ (c ∷ rest ++ digit_at (base / 2) ∷ []))

-- One round of the loop of `keyBetween`: `again` is the loop's next round.
round : Str → ℕ → ℕ → Str → Option Str → Option Str
unfolding separate index_of
round prefix c d rest again =
    if c == d then again else separate prefix c rest (index_of c) (index_of d)

-- The loop. The index is kept as the parts of the bounds that it has not passed; past the end of
-- a bound the character is the first or the last of the alphabet. The rounds end by the test
-- once both bounds are used up, as 48 and 122 differ.
unfoldable pub between : Str → Str → Str → Option Str
unfolding round
between prefix [] [] = round prefix 48 122 [] none
between prefix [] (u ∷ us) = round prefix 48 u [] (between (prefix ++ 48 ∷ []) [] us)
between prefix (l ∷ ls) [] = round prefix l 122 ls (between (prefix ++ l ∷ []) ls [])
between prefix (l ∷ ls) (u ∷ us) = round prefix l u ls (between (prefix ++ l ∷ []) ls us)

-- `bound?.[index]` reads an absent bound as one with no characters.
abbrev pub characters : Option Str → Str
characters none = []
characters (some s) = s

unfoldable pub key_between : Option Str → Option Str → Option Str
unfolding between
key_between lower upper = between [] (characters lower) (characters upper)

unfoldable pub key_before : Option Str → Option Str
unfolding key_between
key_before key = key_between none key

unfoldable pub key_after : Option Str → Option Str
unfolding key_between
key_after key = key_between key none
