-- ===== src/OrderKey/Between.antt =====
-- The key between two keys lies strictly between them and is a valid key.
use react_native_dblayer.Base.{
  ℕ, ◌≡◌, refl, true, false, Option, none, some, [], ◌∷◌, ◌++◌, ◌==◌, arith, every, Bool-cases, inl,
  inr,
}
use react_native_dblayer.Base.Str.{Str, str_lt}
use react_native_dblayer.OrderKey.{is_digit, is_order_key, round, between, key_between}
use react_native_dblayer.OrderKey.Separates.{
  Found, separate-Found, extend-Found, relax-Found, unbind-Found,
}

padding_IsDigits : every is_digit (48 ∷ []) ≡ true
unfolding every is_digit
padding_IsDigits = refl

last_IsDigit : is_digit 122 ≡ true
unfolding is_digit
last_IsDigit = refl

-- With no upper bound left, the padding by the last digit stands for it.
unbounded_step :
    (prefix : Str) (l : ℕ) (ls : Str)
    → every is_digit (l ∷ ls) ≡ true
    → Found (prefix ++ l ∷ []) ls [] false (between (prefix ++ l ∷ []) ls [])
    → Found prefix (l ∷ ls) [] false (between prefix (l ∷ ls) [])
unfolding every between
unbounded_step prefix l ls h next = elim (Bool-cases (l == 122)) [
  | inl last ↦
      rw (last, between)
        (unbind-Found prefix (l ∷ ls) (l ∷ []) [] false _
          (extend-Found prefix l ls [] false _ (ground arith) next))
  | inr more ↦
      rw (more, between)
        (unbind-Found prefix (l ∷ ls) (122 ∷ []) [] false _ (
          separate-Found prefix l 122 ls [] false h last_IsDigit (unfold is_digit in ground arith)))
]

unbounded-Found :
    (prefix ls : Str) → every is_digit ls ≡ true → Found prefix ls [] false (between prefix ls [])
unfolding every
unbounded-Found prefix [] h =
    unfold between in
    relax-Found prefix 48 [] [] false _ (
      unbind-Found prefix (48 ∷ []) (122 ∷ []) [] false _
        (separate-Found prefix 48 122 [] [] false padding_IsDigits last_IsDigit (omega arith)))
unbounded-Found prefix (l ∷ ls) h =
    unbounded_step prefix l ls h (unbounded-Found (prefix ++ l ∷ []) ls (ground arith))

-- A round over a present upper bound, for a lower bound `c ∷ ls` or one padded by `c`.
bounded_step :
    (prefix : Str) (c u : ℕ) (ls us : Str) (next : Option Str)
    → every is_digit (c ∷ ls) ≡ true
    → is_digit u ≡ true
    → str_lt (c ∷ ls) (u ∷ us) ≡ true
    → (c ≡ u → Found (prefix ++ c ∷ []) ls us true next)
    → Found prefix (c ∷ ls) (u ∷ us) true (round prefix c u ls next)
unfolding every str_lt round
bounded_step prefix c u ls us next h hu lt rest = elim (Bool-cases (c == u)) [
  | inl same ↦
      let e : c ≡ u = ground arith in
      rw (same, round) (rw (← e) (extend-Found prefix c ls us true next (ground arith) (rest e)))
  | inr more ↦ rw (more, round) (separate-Found prefix c u ls us true h hu (ground arith))
]

padding_lt : (u : ℕ) (us : Str) → is_order_key (u ∷ us) ≡ true → str_lt (48 ∷ []) (u ∷ us) ≡ true
unfolding is_order_key is_digit str_lt
padding_lt u [] v = ground arith
padding_lt u (w ∷ us) v = ground arith

IsDigit-head : (u : ℕ) (us : Str) → is_order_key (u ∷ us) ≡ true → is_digit u ≡ true
unfolding is_order_key
IsDigit-head u [] v = ground arith
IsDigit-head u (w ∷ us) v = ground arith

-- What follows an equal first digit is again a valid key above the rest of the lower bound.
tail_bounds :
    (c u : ℕ) (ls us : Str)
    → c ≡ u
    → is_order_key (u ∷ us) ≡ true
    → str_lt (c ∷ ls) (u ∷ us) ≡ true
    → (is_order_key us ≡ true) × (str_lt ls us ≡ true)
unfolding is_order_key str_lt
tail_bounds c u ls [] e v lt = ground arith
tail_bounds c u ls (w ∷ us) e v lt = ground arith

not-is_order_key-nil : ¬ (is_order_key [] ≡ true)
unfolding is_order_key
not-is_order_key-nil h = cc

bounded-Found :
    (prefix ls us : Str)
    → every is_digit ls ≡ true
    → is_order_key us ≡ true
    → str_lt ls us ≡ true
    → Found prefix ls us true (between prefix ls us)
unfolding every between
bounded-Found prefix ls [] h v lt = absurd (not-is_order_key-nil v)
bounded-Found prefix [] (u ∷ us) h v lt =
    let start = padding_lt u us v in
    relax-Found prefix 48 [] (u ∷ us) true _ (
      bounded_step prefix 48 u [] us _ padding_IsDigits (IsDigit-head u us v) start (λ e.
        let (v', lt') = tail_bounds 48 u [] us e v start in
        bounded-Found (prefix ++ 48 ∷ []) [] us refl v' lt'))
bounded-Found prefix (l ∷ ls) (u ∷ us) h v lt =
    bounded_step prefix l u ls us _ h (IsDigit-head u us v) lt (λ e.
      let (v', lt') = tail_bounds l u ls us e v lt in
      bounded-Found (prefix ++ l ∷ []) ls us (ground arith) v' lt')

pub every_digit_of_key : (s : Str) → is_order_key s ≡ true → every is_digit s ≡ true
unfolding every is_order_key
every_digit_of_key [] v = refl
every_digit_of_key (c ∷ []) v = ground arith
every_digit_of_key (c ∷ d ∷ s) v = ground (arith, every_digit_of_key (d ∷ s))

key_above_nil : (s : Str) → is_order_key s ≡ true → str_lt [] s ≡ true
unfolding str_lt
key_above_nil [] v = absurd (not-is_order_key-nil v)
key_above_nil (c ∷ s) v = refl

-- A bound is absent or a valid key.
abbrev pub IsBound : Option Str → Type 0
IsBound none = Unit
IsBound (some s) = is_order_key s ≡ true

-- `lower < upper` where both are there.
abbrev pub AreOrdered : Option Str → Option Str → Type 0
AreOrdered (some l) (some u) = str_lt l u ≡ true
AreOrdered _ _ = Unit

abbrev pub IsAbove : Option Str → Str → Type 0
IsAbove none key = Unit
IsAbove (some l) key = str_lt l key ≡ true

abbrev pub IsBelow : Str → Option Str → Type 0
IsBelow key none = Unit
IsBelow key (some u) = str_lt key u ≡ true

-- Between any two bounds that are absent or valid keys, the lower below the upper where both are
-- there, `keyBetween` throws nothing and returns a valid key strictly between them.
pub key_between-IsBetween :
    (lower upper : Option Str)
    → IsBound lower
    → IsBound upper
    → AreOrdered lower upper
    → (key : Str) × (key_between lower upper ≡ some key)
      × (is_order_key key ≡ true)
      × IsAbove lower key
      × IsBelow key upper
unfolding key_between
key_between-IsBetween none none l u o =
    let (k, e, s) = unbounded-Found [] [] (unfold every in refl) in (k, e, s.valid, tt, tt)
key_between-IsBetween none (some u) l v o =
    let (k, e, s) = bounded-Found [] [] u (unfold every in refl) v (key_above_nil u v) in
    (k, e, s.valid, tt, s.below refl)
key_between-IsBetween (some l) none v u o =
    let (k, e, s) = unbounded-Found [] l (every_digit_of_key l v) in (k, e, s.valid, s.above, tt)
key_between-IsBetween (some l) (some u) v w o =
    let (k, e, s) = bounded-Found [] l u (every_digit_of_key l v) w o in
    (k, e, s.valid, s.above, s.below refl)
