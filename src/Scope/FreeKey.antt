-- ===== src/Scope/FreeKey.antt =====
-- The loop of `reconcileNext` that steers a generated key around the keys taken.
use react_native_dblayer.Base.{
  ℕ, zero, suc, ◌≤◌, ◌<◌, ◌≡◌, refl, true, false, not, Option, none, some, List, [], ◌∷◌, arith,
  keep, length, Bool, leb, every, subst, Bool-cases, inl, inr,
}
use react_native_dblayer.Base.Str.{Str, str_eq, str_eq_iff, str_lt, str_lt_irrefl, str_lt_trans}
use react_native_dblayer.Base.StrSet
use react_native_dblayer.Base.StrSet.{StrSet}
use react_native_dblayer.OrderKey.{is_order_key, max_sequence_key_length, characters}
use react_native_dblayer.OrderKey.Between.{IsBound, AreOrdered, IsBelow}
use react_native_dblayer.OrderKey.Sequence.{keys_for_sequence}
use react_native_dblayer.OrderKey.Sequence.Even.{Ascends}
use react_native_dblayer.OrderKey.Sequence.Ascending.{keys_for_sequence-Ascends}
use react_native_dblayer.Scope.Placement.{free_key, next_key}

-- The keys taken that are not below a key.
abbrev count_from : Str → StrSet → ℕ
count_from key taken = length (keep (λ k. not (str_lt k key)) taken)

count_from_mono :
    (key next : Str) (taken : StrSet)
    → str_lt key next ≡ true
    → count_from next taken ≤ count_from key taken
unfolding keep
count_from_mono key next [] h = omega arith
count_from_mono key next (k ∷ taken) h =
    ground (arith, count_from_mono key next taken h, str_lt_trans k key next)

count_from-drops :
    (key next : Str) (taken : StrSet)
    → str_lt key next ≡ true
    → StrSet.has key taken ≡ true
    → count_from next taken < count_from key taken
unfolding keep StrSet.has
count_from-drops key next [] h m = cc
count_from-drops key next (k ∷ taken) h m = elim (Bool-cases (str_eq k key)) [
  | inl same ↦
      let is_key : k ≡ key = (str_eq_iff k key).0 same in
      let under : str_lt k next ≡ true = rw is_key h in
      let at : str_lt k key ≡ false = rw is_key (str_lt_irrefl key) in
      ground (arith, count_from_mono key next taken h)
  | inr other ↦ ground (arith, count_from-drops key next taken h, str_lt_trans k key next)
]

count_from-bound : (key : Str) (taken : StrSet) → count_from key taken ≤ length taken
unfolding keep
count_from-bound key [] = omega arith
count_from-bound key (k ∷ taken) = ground (arith, count_from-bound key taken)

-- A key that the loop ends on: free, valid, not below the one it began with and below the bound.
abbrev pub IsFree : StrSet → Str → Option Str → Option Str → Type 0
IsFree taken key upper found =
    (k : Str) × (found ≡ some k)
    × (StrSet.has k taken ≡ false)
    × (is_order_key k ≡ true)
    × (str_lt k key ≡ false)
    × AreOrdered (some k) upper

AreOrdered-of_below : (k : Str) (upper : Option Str) → IsBelow k upper → AreOrdered (some k) upper
AreOrdered-of_below k none h = tt
AreOrdered-of_below k (some u) h = h

-- A key whose number a double holds exactly.
abbrev pub is_short : Str → Bool
is_short key = leb (length key) max_sequence_key_length

every-has :
    (key : Str) (taken : StrSet)
    → every is_short taken ≡ true
    → StrSet.has key taken ≡ true
    → is_short key ≡ true
unfolding every StrSet.has
every-has key [] h m = cc
every-has key (k ∷ taken) h m = elim (Bool-cases (str_eq k key)) [
  | inl same ↦ subst (λ x. is_short x ≡ true) ((str_eq_iff k key).0 same) (ground arith)
  | inr other ↦ ground (arith, every-has key taken)
]

abbrev NextKey : Str → Option Str → Option Str → Type 0
NextKey key upper found =
    (k : Str) × (found ≡ some k)
    × (is_order_key k ≡ true)
    × (str_lt key k ≡ true)
    × AreOrdered (some k) upper

next_key-of_keys :
    (key : Str) (upper : Option Str) (keys : List Str)
    → keys_for_sequence 1 (some key) upper ≡ some keys
    → length keys ≡ 1
    → Ascends (some key) keys upper
    → NextKey key upper (next_key key upper)
unfolding next_key
next_key-of_keys key upper [] e size up = absurd (omega arith)
next_key-of_keys key upper (k ∷ keys) e size (valid, above, below, more) =
    (k, rw (e, next_key) refl, valid, above, AreOrdered-of_below k upper below)

next_key-NextKey :
    (key : Str) (upper : Option Str)
    → is_order_key key ≡ true
    → IsBound upper
    → AreOrdered (some key) upper
    → is_short key ≡ true
    → length (characters upper) ≤ max_sequence_key_length
    → NextKey key upper (next_key key upper)
next_key-NextKey key upper h hu o short below =
    let (keys, e, size, up) =
      keys_for_sequence-Ascends 1 (some key) upper h hu o (ground arith) below in
    next_key-of_keys key upper keys e size up

not_below : (a b c : Str) → str_lt c b ≡ false → str_lt a b ≡ true → str_lt c a ≡ false
not_below a b c h k = ground (arith, str_lt_trans c a b)

some_from :
    (key : Str) (taken : StrSet) → StrSet.has key taken ≡ true → count_from key taken ≤ 0 → ⊥
unfolding keep StrSet.has
some_from key [] m few = absurd (ground arith)
some_from key (k ∷ taken) m few =
    ground (arith, some_from key taken, str_eq_iff k key, str_lt_irrefl key)

free_key-enough :
    (fuel : ℕ) (taken : StrSet) (key : Str) (upper : Option Str)
    → count_from key taken ≤ fuel
    → is_order_key key ≡ true
    → IsBound upper
    → AreOrdered (some key) upper
    → every is_short taken ≡ true
    → length (characters upper) ≤ max_sequence_key_length
    → IsFree taken key upper (free_key fuel taken key upper)
unfolding free_key
free_key-enough zero taken key upper few h hu o short below =
    elim (Bool-cases (StrSet.has key taken)) [
      | inr free ↦ (key, rw (free, free_key) refl, free, h, str_lt_irrefl key, o)
      | inl stuck ↦ absurd (some_from key taken stuck few)
    ]
free_key-enough (suc fuel) taken key upper few h hu o short below =
    elim (Bool-cases (StrSet.has key taken)) [
      | inr free ↦ (key, rw (free, free_key) refl, free, h, str_lt_irrefl key, o)
      | inl stuck ↦
          let (next, e, valid, above, under) =
            next_key-NextKey key upper h hu o (every-has key taken short stuck) below in
          let fewer : count_from next taken ≤ fuel =
            omega (arith, count_from-drops key next taken above stuck) in
          let (k, found, free, good, least, under_bound) =
            free_key-enough fuel taken next upper fewer valid hu under short below in
          (
            k,
            rw (stuck, free_key) (rw (e, free_key) found),
            free,
            good,
            not_below key next k least above,
            under_bound,
          )
    ]

-- From a valid key below its bound (absent or a valid key), where the bound and the keys taken have
-- up to 8 characters, and with one unit of fuel more than there are keys taken, the loop ends on a key that is not taken, valid, not below the one it
-- began with, and below the bound.
pub free_key-IsFree :
    (taken : StrSet) (key : Str) (upper : Option Str)
    → is_order_key key ≡ true
    → IsBound upper
    → AreOrdered (some key) upper
    → every is_short taken ≡ true
    → length (characters upper) ≤ max_sequence_key_length
    → IsFree taken key upper (free_key (suc (length taken)) taken key upper)
free_key-IsFree taken key upper h hu o short below =
    free_key-enough (suc (length taken)) taken key upper (omega (arith, count_from-bound key taken))
      h hu o short below
