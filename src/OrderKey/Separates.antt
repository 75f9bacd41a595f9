-- ===== src/OrderKey/Separates.antt =====
-- The round of `keyBetween` at which the bounds differ, and what a round adds to a result.
use react_native_dblayer.Base.{
  ℕ, ◌+◌, ◌-◌, ◌/◌, ◌<◌, ◌≡◌, refl, ◌∙◌, ap, Bool, true, false, Option, some, [], ◌∷◌, ◌++◌,
  append_assoc, ltb, arith, every, Bool-cases, inl, inr,
}
use react_native_dblayer.Base.Str.{Str, str_lt}
use react_native_dblayer.OrderKey.{index_of, digit_at, is_digit, is_order_key, separate}
use react_native_dblayer.OrderKey.Digits.{
  rank, index_of-digit, digit_at-eq-symbol, symbol-lt, rank-lt, rank-lt-base, symbol-rank,
  symbol-IsDigit,
}

-- `key` is valid and strictly between the bounds; an absent upper bound lies above every key.
pub record Separates (lower upper key : Str) (bounded : Bool) : Type 0 where
  pub valid : is_order_key key ≡ true
  pub above : str_lt lower key ≡ true
  pub below : bounded ≡ true → str_lt key upper ≡ true

-- A valid key after more digits is valid.
pub is_order_key-append :
    (s t : Str) → every is_digit s ≡ true → is_order_key t ≡ true → is_order_key (s ++ t) ≡ true
unfolding every is_order_key
is_order_key-append [] t h k = k
is_order_key-append (c ∷ []) (d ∷ t) h k = ground arith
is_order_key-append (c ∷ []) [] h k = cc
is_order_key-append (c ∷ d ∷ s) t h k = ground (arith, is_order_key-append (d ∷ s) t)

pub str_lt-append_right : (s : Str) (c : ℕ) (t : Str) → str_lt s (s ++ c ∷ t) ≡ true
unfolding str_lt
str_lt-append_right [] c t = refl
str_lt-append_right (a ∷ s) c t = ground (arith, str_lt-append_right s c t)

abbrev pub Found : Str → Str → Str → Bool → Option Str → Type 0
Found prefix lower upper bounded result =
    (key : Str) × (result ≡ some (prefix ++ key)) × Separates lower upper key bounded

pub middle_key-Separates :
    (c d m : ℕ) (rest us : Str) (bounded : Bool)
    → is_digit c ≡ true
    → is_digit d ≡ true
    → rank c < m
    → m < rank d
    → Separates (c ∷ rest) (d ∷ us) (digit_at m ∷ []) bounded
unfolding is_order_key str_lt
middle_key-Separates c d m rest us bounded hc hd low high = ground (
  arith,
  digit_at-eq-symbol m (omega (arith, rank-lt-base d hd)),
  symbol-IsDigit m (omega (arith, rank-lt-base d hd)),
  symbol-lt (rank c) m low (omega (arith, rank-lt-base d hd)),
  symbol-lt m (rank d) high (rank-lt-base d hd),
  symbol-rank c hc,
  symbol-rank d hd,
)

pub longer_key-Separates :
    (c d : ℕ) (rest us : Str) (bounded : Bool)
    → every is_digit (c ∷ rest) ≡ true
    → c < d
    → Separates (c ∷ rest) (d ∷ us) (c ∷ rest ++ digit_at 31 ∷ []) bounded
unfolding str_lt
longer_key-Separates c d rest us bounded h lt = record {
  valid =
      is_order_key-append (c ∷ rest) (digit_at 31 ∷ []) h
        (unfold is_order_key is_digit digit_at in refl);
  above = str_lt-append_right (c ∷ rest) (digit_at 31) [];
  below = λ _. ground arith;
}

-- The round that finds different characters returns such a key.
pub separate-Found :
    (prefix : Str) (c d : ℕ) (rest us : Str) (bounded : Bool)
    → every is_digit (c ∷ rest) ≡ true
    → is_digit d ≡ true
    → c < d
    → Found prefix (c ∷ rest) (d ∷ us) bounded (separate prefix c rest (index_of c) (index_of d))
unfolding every
separate-Found prefix c d rest us bounded h hd lt =
    let hc : is_digit c ≡ true = ground arith in
    let apart : rank c < rank d = rank-lt c d hc hd lt in
    rw (index_of-digit c hc, index_of-digit d hd)
      (elim (Bool-cases (ltb 1 (rank d - rank c))) [
        | inl wide ↦ (
          digit_at ((rank c + rank d) / 2) ∷ [],
          unfold separate in ground arith,
          middle_key-Separates c d ((rank c + rank d) / 2) rest us bounded hc hd (ground arith)
              (ground arith),
        )
        | inr near ↦ (
          c ∷ rest ++ digit_at 31 ∷ [],
          unfold separate in ground arith,
          longer_key-Separates c d rest us bounded h lt,
        )
      ])

-- A round that finds equal characters adds the character to the key of the next round.
pub extend-Found :
    (prefix : Str) (c : ℕ) (ls us : Str) (bounded : Bool) (result : Option Str)
    → is_digit c ≡ true
    → Found (prefix ++ c ∷ []) ls us bounded result
    → Found prefix (c ∷ ls) (c ∷ us) bounded result
unfolding str_lt is_order_key
extend-Found prefix c ls us bounded result hc ([], e, s) = cc (s.valid)
extend-Found prefix c ls us bounded result hc (k ∷ ks, e, s) = (
  c ∷ k ∷ ks,
  e ∙ ap some (append_assoc prefix (c ∷ []) (k ∷ ks)),
  record {
    valid = ground (arith, s.valid);
    above = ground (arith, s.above);
    below = λ b. ground (arith, s.below b);
  },
)

-- An exhausted lower bound lies below every key that is above its padding by the first digit.
pub relax-Found :
    (prefix : Str) (c : ℕ) (rest us : Str) (bounded : Bool) (result : Option Str)
    → Found prefix (c ∷ rest) us bounded result
    → Found prefix [] us bounded result
unfolding str_lt
relax-Found prefix c rest us bounded result ([], e, s) = cc (s.above)
relax-Found prefix c rest us bounded result (k ∷ ks, e, s) =
    (k ∷ ks, e, record { valid = s.valid; above = refl; below = s.below })

-- An absent upper bound restrains nothing.
pub unbind-Found :
    (prefix lower us vs : Str) (bounded : Bool) (result : Option Str)
    → Found prefix lower us bounded result
    → Found prefix lower vs false result
unbind-Found prefix lower us vs bounded result (k, e, s) =
    (k, e, record { valid = s.valid; above = s.above; below = λ b. cc })
