-- ===== src/OrderKey/Digits.antt =====
-- The alphabet of the order keys: positions and characters, in closed form.
use react_native_dblayer.Base.{
  ℕ, zero, suc, ◌+◌, ◌-◌, ◌<◌, ◌≡◌, refl, Bool, true, false, ◌&&◌, Option, none, some, ltb, leb,
  ◌==◌, if◌then◌else◌, arith,
}
use react_native_dblayer.OrderKey.{index_of, digit_at, is_digit}

-- The position of a digit, by the three runs of the alphabet.
abbrev pub rank : ℕ → ℕ
rank c = if leb c 57 then c - 48 else if leb c 90 then c - 55 else c - 61

abbrev pub symbol : ℕ → ℕ
symbol i = if ltb i 10 then i + 48 else if ltb i 36 then i + 55 else i + 61

holds_up_to : (ℕ → Bool) → ℕ → Bool
holds_up_to test zero = true
holds_up_to test (suc last) = holds_up_to test last && test last

-- A table that was run holds at each of its entries.
table_at :
    (test : ℕ → Bool) (size entry : ℕ)
    → entry < size
    → holds_up_to test size ≡ true
    → test entry ≡ true
unfolding holds_up_to
table_at test zero entry inside run = absurd (omega arith)
table_at test (suc last) entry inside run = ground (arith, table_at test last entry)

is_at : ℕ → Option ℕ → Bool
is_at i none = false
is_at i (some j) = i == j

index_table : holds_up_to (λ c. if is_digit c then is_at (rank c) (index_of c) else true) 123 ≡ true
unfolding holds_up_to is_digit index_of is_at
index_table = refl

symbol_table : holds_up_to (λ i. digit_at i == symbol i) 62 ≡ true
unfolding holds_up_to digit_at
symbol_table = refl

pub digit-lt : (c : ℕ) → is_digit c ≡ true → c < 123
unfolding is_digit
digit-lt c h = ground arith

pub index_of-digit : (c : ℕ) → is_digit c ≡ true → index_of c ≡ some (rank c)
unfolding is_at
index_of-digit c h = ground (arith, digit-lt c, table_at _ 123 c (digit-lt c h) index_table)

pub digit_at-eq-symbol : (i : ℕ) → i < 62 → digit_at i ≡ symbol i
digit_at-eq-symbol i h = ground (arith, table_at _ 62 i h symbol_table)

-- Positions follow the code units.
pub symbol-lt : (i j : ℕ) → i < j → j < 62 → symbol i < symbol j
symbol-lt i j h k = ground arith

pub rank-lt : (c d : ℕ) → is_digit c ≡ true → is_digit d ≡ true → c < d → rank c < rank d
unfolding is_digit
rank-lt c d h k lt = ground arith

pub rank-lt-base : (c : ℕ) → is_digit c ≡ true → rank c < 62
unfolding is_digit
rank-lt-base c h = ground arith

pub symbol-rank : (c : ℕ) → is_digit c ≡ true → symbol (rank c) ≡ c
unfolding is_digit
symbol-rank c h = ground arith

pub symbol-IsDigit : (i : ℕ) → i < 62 → is_digit (symbol i) ≡ true
unfolding is_digit
symbol-IsDigit i h = ground arith
