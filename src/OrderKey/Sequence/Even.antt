-- ===== src/OrderKey/Sequence/Even.antt =====
-- The evenly distributed keys ascend strictly between the bounds.
use react_native_dblayer.Base.{
  ℕ, zero, suc, ◌+◌, ◌-◌, ◌*◌, ◌%◌, ◌^◌, ◌≤◌, ◌<◌, ◌≡◌, ◌≢◌, refl, true, Option, some, List, [],
  ◌∷◌, arith, every, length,
}
use react_native_dblayer.Base.Str.{Str}
use react_native_dblayer.OrderKey.{is_digit, is_order_key}
use react_native_dblayer.OrderKey.Double.{safe_limit, round_double-exact}
use react_native_dblayer.OrderKey.Between.{IsAbove, IsBelow}
use react_native_dblayer.OrderKey.Sequence.{to_key, key_value, even_keys}
use react_native_dblayer.OrderKey.Sequence.Numerals.{reads, str_lt_of_padded_lower}
use react_native_dblayer.OrderKey.Sequence.ToKey.{Prints, to_key-Prints, to_key-IsOrderKey}

-- Valid keys, each above the one before, the first above `lower` and all below `upper`.
abbrev pub Ascends : Option Str → List Str → Option Str → Type 0
Ascends lower [] upper = Unit
Ascends lower (k ∷ ks) upper =
    (is_order_key k ≡ true) × IsAbove lower k × IsBelow k upper × Ascends (some k) ks upper

-- Every key of `size` characters that stands for `least` or more is above the bound.
pub record LiesUnder (bound : Option Str) (size least : ℕ) : Type 0 where
  pub apply :
      (t : Str)
      → every is_digit t ≡ true
      → length t ≡ size
      → least ≤ reads 0 t size
      → IsAbove bound t

-- Every key of `size` characters that stands for less than `limit` is below the bound.
pub record LiesOver (bound : Option Str) (size limit : ℕ) : Type 0 where
  pub apply :
      (t : Str)
      → every is_digit t ≡ true
      → length t ≡ size
      → reads 0 t size < limit
      → IsBelow t bound

key_value_bounds :
    (a step i : ℕ)
    → 2 ≤ step
    → 1 ≤ i
    → a + step * i < safe_limit
    → (a + step * i ≤ key_value a step i + 1)
      × (key_value a step i ≤ a + step * i)
      × (key_value a step i % 62 ≢ 0)
unfolding key_value
key_value_bounds a step i h k safe =
    let p : 2 ≤ step * i = grind arith in
    ground (
      arith,
      round_double-exact (step * i) (omega arith),
      round_double-exact (a + step * i - 1) (omega arith),
      round_double-exact (a + step * i - 1 + 1) (omega arith),
    )

-- A printed key lies under every key that stands for more.
Prints-LiesUnder : (v n : ℕ) (k : Str) → Prints v n k → LiesUnder (some k) n (v + 1)
Prints-LiesUnder v n k p = record {
  apply = λ t ht e h. str_lt_of_padded_lower 0 k t n p.digits ht e (omega (arith, p.reads_back));
}

pub LiesUnder-mono :
    (bound : Option Str) (size a b : ℕ) → a ≤ b → LiesUnder bound size a → LiesUnder bound size b
LiesUnder-mono bound size a b h u = record { apply = λ t ht e k. u.apply t ht e (omega arith) }

pub even_keys-Ascends :
    (previous upper : Option Str) (a step m i remaining limit : ℕ)
    → 2 ≤ step
    → 1 ≤ i
    → limit ≤ 62 ^ suc m
    → limit ≤ safe_limit
    → a + step * (i + remaining) < limit + step
    → LiesUnder previous (suc m) (a + step * i - 1)
    → LiesOver upper (suc m) limit
    → Ascends previous (even_keys a step (suc m) i remaining) upper
unfolding even_keys
even_keys-Ascends previous upper a step m i zero limit hs hi hl safe room under over = tt
even_keys-Ascends previous upper a step m i (suc remaining) limit hs hi hl safe room under over =
    let later : step ≤ step * (1 + remaining) = grind arith in
    let (low, high, odd) = key_value_bounds a step i hs hi (omega arith) in
    let v = key_value a step i in
    let p = to_key-Prints v (suc m) (omega arith) (omega arith) in
    (
      to_key-IsOrderKey v m odd,
      under.apply (to_key v (suc m)) p.digits p.size (omega (arith, p.reads_back)),
      over.apply (to_key v (suc m)) p.digits p.size (omega (arith, p.reads_back)),
      even_keys-Ascends (some (to_key v (suc m))) upper a step m (i + 1) remaining limit hs
          (omega arith) hl safe (omega arith)
          (LiesUnder-mono _ (suc m) (v + 1) _ (omega arith)
            (Prints-LiesUnder v (suc m) (to_key v (suc m)) p))
          over,
    )

pub length-even_keys : (a step size i n : ℕ) → length (even_keys a step size i n) ≡ n
unfolding even_keys
length-even_keys a step size i zero = refl
length-even_keys a step size i (suc n) = omega (arith, length-even_keys a step size (i + 1) n)
