-- ===== src/CompositeKey/Decimal.antt =====
-- Printed numbers are digits and read back.
use react_native_dblayer.Base.{
  ℕ, zero, suc, ◌+◌, ◌-◌, ◌*◌, ◌/◌, ◌%◌, ◌<◌, ◌≡◌, refl, sym, ◌∙◌, append_assoc, true, false, some,
  [], ◌∷◌, ◌++◌, ltb, ◌==◌, arith, every, Bool-cases, inl, inr,
}
use react_native_dblayer.Base.Str.{Str}
use react_native_dblayer.CompositeKey.{
  decimal_from, decimal, is_decimal_digit, is_decimal, to_number, split_colon,
}

digit_IsDigit : (n : ℕ) → is_decimal_digit (n % 10 + 48) ≡ true
unfolding is_decimal_digit
digit_IsDigit n = ground arith

-- What stands before the tail: a digit and more digits, which read back as the number.
pub record Prints (n : ℕ) (tail printed : Str) : Type 0 where
  pub digits : Str
  pub split : printed ≡ digits ++ tail
  pub decimals : is_decimal digits ≡ true
  pub value : to_number 0 digits ≡ n

to_number-append : (v : ℕ) (s t : Str) → to_number v (s ++ t) ≡ to_number (to_number v s) t
unfolding to_number
to_number-append v [] t = refl
to_number-append v (c ∷ s) t = to_number-append (v * 10 + (c - 48)) s t

is_decimal-append :
    (s : Str) (c : ℕ)
    → is_decimal s ≡ true
    → is_decimal_digit c ≡ true
    → is_decimal (s ++ c ∷ []) ≡ true
unfolding is_decimal every
is_decimal-append [] c h k = cc
is_decimal-append (d ∷ []) c h k = ground arith
is_decimal-append (d ∷ e ∷ s) c h k = ground (arith, is_decimal-append (e ∷ s) c)

one_digit-Prints : (n : ℕ) (tail : Str) → n < 10 → Prints n tail ((n % 10 + 48) ∷ tail)
unfolding is_decimal to_number every
one_digit-Prints n tail h = record {
  digits = (n % 10 + 48) ∷ [];
  split = refl;
  decimals = ground (arith, digit_IsDigit n);
  value = omega arith;
}

more_digits-Prints :
    (n : ℕ) (tail printed : Str)
    → Prints (n / 10) ((n % 10 + 48) ∷ tail) printed
    → Prints n tail printed
more_digits-Prints n tail printed p = record {
  digits = p.digits ++ (n % 10 + 48) ∷ [];
  split = p.split ∙ sym (append_assoc p.digits ((n % 10 + 48) ∷ []) tail);
  decimals = is_decimal-append p.digits (n % 10 + 48) p.decimals (digit_IsDigit n);
  value =
      to_number-append 0 p.digits ((n % 10 + 48) ∷ []) ∙ unfold to_number in omega (arith, p.value);
}

decimal_from-Prints :
    (fuel n : ℕ) (tail : Str) → n < fuel → Prints n tail (decimal_from fuel n tail)
unfolding decimal_from
decimal_from-Prints zero n tail h = absurd (omega arith)
decimal_from-Prints (suc fuel) n tail h =
    let more = decimal_from-Prints fuel (n / 10) ((n % 10 + 48) ∷ tail) in
    elim (Bool-cases (ltb n 10)) [
      | inl small ↦ rw small (one_digit-Prints n tail (ground arith))
      | inr large ↦ rw large (more_digits-Prints n tail _ (more (ground arith)))
    ]

pub decimal-Prints : (n : ℕ) → Prints n [] (decimal n)
unfolding decimal
decimal-Prints n = decimal_from-Prints (suc n) n [] (omega arith)

-- Digits hold no colon.
pub split_colon-digits :
    (s rest : Str) → every is_decimal_digit s ≡ true → split_colon (s ++ 58 ∷ rest) ≡ some (s, rest)
unfolding split_colon every
split_colon-digits [] rest h = refl
split_colon-digits (c ∷ s) rest h =
    let ne : (c == 58) ≡ false = unfold is_decimal_digit in ground arith in
    rw (ne, split_colon) (rw (split_colon-digits s rest (ground arith)))

pub every-digit_of_decimal : (s : Str) → is_decimal s ≡ true → every is_decimal_digit s ≡ true
unfolding is_decimal every
every-digit_of_decimal [] h = refl
every-digit_of_decimal (c ∷ s) h = h
