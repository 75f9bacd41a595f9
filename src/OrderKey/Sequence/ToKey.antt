-- ===== src/OrderKey/Sequence/ToKey.antt =====
-- `toKey`: a number below 62^n and 2^53 is printed as a key of n characters that reads back
-- as the number.
use react_native_dblayer.Base.{
  ℕ, zero, suc, ◌+◌, ◌*◌, ◌/◌, ◌%◌, ◌^◌, ◌<◌, ◌≡◌, ◌≢◌, refl, ◌∙◌, true, [], ◌∷◌, arith, every,
  length, ap,
}
use react_native_dblayer.Base.Str.{Str}
use react_native_dblayer.OrderKey.{digit_at, is_digit, is_order_key}
use react_native_dblayer.OrderKey.Double.{safe_limit, floor_quotient, floor_quotient-exact}
use react_native_dblayer.OrderKey.Digits.{rank, symbol, digit_at-eq-symbol, symbol-IsDigit}
use react_native_dblayer.OrderKey.Sequence.{to_key_from, to_key}
use react_native_dblayer.OrderKey.Sequence.Numerals.{reads, pow_step}

abbrev number : ℕ → Str → ℕ
number value [] = value
number value (c ∷ s) = number (value * 62 + rank c) s

reads-length : (value : ℕ) (s : Str) → reads value s (length s) ≡ number value s
reads-length value [] = refl
reads-length value (c ∷ s) = reads-length (value * 62 + rank c) s

rank-symbol : (i : ℕ) → i < 62 → rank (symbol i) ≡ i
rank-symbol i h = ground arith

rank-digit_at : (i : ℕ) → i < 62 → rank (digit_at i) ≡ i
rank-digit_at i h = rw (digit_at-eq-symbol i h) (rank-symbol i h)

digit_at-IsDigit : (i : ℕ) → i < 62 → is_digit (digit_at i) ≡ true
digit_at-IsDigit i h = rw (digit_at-eq-symbol i h) (symbol-IsDigit i h)

digit_at-ne-minimal : (i : ℕ) → i < 62 → i ≢ 0 → digit_at i ≢ 48
digit_at-ne-minimal i h k = rw (digit_at-eq-symbol i h) (ground arith)

length-to_key_from : (key : Str) (v n : ℕ) → length (to_key_from key v n) ≡ n + length key
unfolding to_key_from
length-to_key_from key v zero = omega arith
length-to_key_from key v (suc n) =
    omega (arith, length-to_key_from (digit_at (v % 62) ∷ key) (floor_quotient v 62) n)

number-to_key_from :
    (value v n : ℕ) (key : Str)
    → v < 62 ^ n
    → v < safe_limit
    → number value (to_key_from key v n) ≡ number (value * 62 ^ n + v) key
unfolding to_key_from
number-to_key_from value v zero key h safe = ap (λ (x : ℕ). number x key) (omega arith)
number-to_key_from value v (suc n) key h safe =
    ap (λ (q : ℕ). number value (to_key_from (digit_at (v % 62) ∷ key) q n))
      (floor_quotient-exact v 62 safe)
    ∙ number-to_key_from value (v / 62) n (digit_at (v % 62) ∷ key) (omega (arith, pow_step n))
        (omega arith)
    ∙ ap (λ (x : ℕ). number x key)
        (omega (
          arith,
          pow_step n,
          rank-digit_at (v % 62) (omega arith),
          ap (λ (p : ℕ). value * p) (pow_step n),
        ))

digits-to_key_from :
    (key : Str) (v n : ℕ) → every is_digit key ≡ true → every is_digit (to_key_from key v n) ≡ true
unfolding to_key_from every
digits-to_key_from key v zero h = h
digits-to_key_from key v (suc n) h =
    digits-to_key_from (digit_at (v % 62) ∷ key) (floor_quotient v 62) n
      (ground (arith, digit_at-IsDigit (v % 62) (omega arith)))

valid-to_key_from :
    (c : ℕ) (key : Str) (v n : ℕ)
    → is_order_key (c ∷ key) ≡ true
    → is_order_key (to_key_from (c ∷ key) v n) ≡ true
unfolding to_key_from is_order_key
valid-to_key_from c key v zero h = h
valid-to_key_from c key v (suc n) h =
    valid-to_key_from (digit_at (v % 62)) (c ∷ key) (floor_quotient v 62) n
      (ground (arith, digit_at-IsDigit (v % 62) (omega arith)))

-- What `toKey` promises of one number.
pub record Prints (v n : ℕ) (key : Str) : Type 0 where
  pub digits : every is_digit key ≡ true
  pub size : length key ≡ n
  pub reads_back : reads 0 key n ≡ v

pub to_key-Prints : (v n : ℕ) → v < 62 ^ n → v < safe_limit → Prints v n (to_key v n)
unfolding to_key
to_key-Prints v n h safe =
    let e : length (to_key_from [] v n) ≡ n = omega (arith, length-to_key_from [] v n) in
    record {
      digits = digits-to_key_from [] v n (unfold every in refl);
      size = e;
      reads_back =
          ap (λ (m : ℕ). reads 0 (to_key_from [] v n) m) (omega (arith, e))
          ∙ reads-length 0 (to_key_from [] v n)
          ∙ number-to_key_from 0 v n [] h safe
          ∙ omega arith;
    }

-- A number that is no multiple of 62 is printed as a valid key.
pub to_key-IsOrderKey : (v n : ℕ) → v % 62 ≢ 0 → is_order_key (to_key v (suc n)) ≡ true
unfolding to_key to_key_from
to_key-IsOrderKey v n h = valid-to_key_from (digit_at (v % 62)) [] (floor_quotient v 62) n (
    unfold is_order_key in
    ground (
      arith,
      digit_at-IsDigit (v % 62) (omega arith),
      digit_at-ne-minimal (v % 62) (omega arith) h,
    ))
