-- ===== src/CompositeKey/RoundTrip.antt =====
-- compositeKey and parseCompositeKey of src/core/serialize.ts: the round trip and the end of the
-- parser's loop.
use react_native_dblayer.Base.{
  ℕ, zero, suc, ◌+◌, ◌≤◌, ◌<◌, ◌≡◌, refl, sym, ◌∙◌, ap, append_assoc, append-nil, true, ◌&&◌,
  Option, none, some, List, [], ◌∷◌, ◌++◌, leb, arith, length, length-append, length-drop,
  take-append_length, drop-append_length, Option-cases, Bool-cases, ◌==◌, inl, inr,
}
use react_native_dblayer.Base.Str.{Str}
use react_native_dblayer.CompositeKey.{
  max_safe_integer, decimal, segment, composite_key, is_decimal, to_number, split_colon,
  read_segment, after_part, parse_from, parse_composite_key,
}
use react_native_dblayer.CompositeKey.Decimal.{
  decimal-Prints, split_colon-digits, every-digit_of_decimal,
}

-- A part that a JavaScript string can hold.
abbrev pub AreSafe : List Str → Type 0
AreSafe [] = Unit
AreSafe (part ∷ parts) = (length part ≤ max_safe_integer) × AreSafe parts

split_colon-segment :
    (part rest : Str)
    → split_colon (segment part ++ rest) ≡ some (decimal (length part), part ++ rest)
unfolding segment
split_colon-segment part rest =
    let p = decimal-Prints (length part) in
    let e : decimal (length part) ≡ p.digits = p.split ∙ append-nil p.digits in
    ap split_colon (append_assoc (decimal (length part)) (58 ∷ part) rest)
    ∙ split_colon-digits (decimal (length part)) (part ++ rest)
        (every-digit_of_decimal _ (ap is_decimal e ∙ p.decimals))

decimal_facts : (n : ℕ) → (is_decimal (decimal n) ≡ true) × (to_number 0 (decimal n) ≡ n)
decimal_facts n =
    let p = decimal-Prints n in
    let e : decimal n ≡ p.digits = p.split ∙ append-nil p.digits in
    (ap is_decimal e ∙ p.decimals, ap (to_number 0) e ∙ p.value)

read_segment-segment :
    (part rest : Str)
    → length part ≤ max_safe_integer
    → read_segment (segment part ++ rest) ≡ some (part, rest)
unfolding read_segment
read_segment-segment part rest h =
    let (d, v) = decimal_facts (length part) in
    rw (split_colon-segment part rest, read_segment)
      (rw (d, v)
        (ground (
          arith,
          take-append_length part rest,
          drop-append_length part rest,
          length-append part rest,
        )))

not-read_segment-nil : (part rest : Str) → ¬ (read_segment [] ≡ some (part, rest))
unfolding read_segment
not-read_segment-nil part rest e = cc

parse_from-step :
    (fuel : ℕ) (key part rest : Str)
    → read_segment key ≡ some (part, rest)
    → parse_from (suc fuel) key ≡ after_part part (parse_from fuel rest)
unfolding parse_from
parse_from-step fuel [] part rest e = absurd (not-read_segment-nil part rest e)
parse_from-step fuel (c ∷ s) part rest e = rw (e, parse_from) refl

length-segment : (part rest : Str) → suc (length part + length rest) ≤ length (segment part ++ rest)
unfolding segment
length-segment part rest = omega (
  arith,
  length-append (decimal (length part) ++ 58 ∷ part) rest,
  length-append (decimal (length part)) (58 ∷ part),
)

-- From any fuel that covers the text, the parser returns the parts.
parse_from-composite_key :
    (fuel : ℕ) (parts : List Str)
    → AreSafe parts
    → length (composite_key parts) ≤ fuel
    → parse_from fuel (composite_key parts) ≡ some (some parts)
unfolding composite_key after_part
parse_from-composite_key fuel [] h k = unfold parse_from in refl
parse_from-composite_key zero (p ∷ ps) h k =
    absurd (omega (arith, length-segment p (composite_key ps)))
parse_from-composite_key (suc fuel) (p ∷ ps) h k =
    parse_from-step fuel (segment p ++ composite_key ps) p (composite_key ps)
      (read_segment-segment p (composite_key ps) h.0)
    ∙ ap (after_part p)
        (parse_from-composite_key fuel ps h.1 (omega (arith, length-segment p (composite_key ps))))

-- For parts of a safe integer's length each, `parseCompositeKey(compositeKey(...parts))` returns
-- the parts, whatever characters they hold.
pub parse-composite_key :
    (parts : List Str) → AreSafe parts → parse_composite_key (composite_key parts) ≡ some parts
unfolding parse_composite_key
parse-composite_key parts h =
    rw
      (
        parse_from-composite_key (length (composite_key parts)) parts h (omega arith),
        parse_composite_key,
      )
      refl

-- Two lists of parts, each part of a safe integer's length, that have the same key are the same.
pub composite_key-injective :
    (ps qs : List Str) → AreSafe ps → AreSafe qs → composite_key ps ≡ composite_key qs → ps ≡ qs
composite_key-injective ps qs h k e =
    cc (sym (parse-composite_key ps h) ∙ ap parse_composite_key e ∙ parse-composite_key qs k)

-- A result leaves a text shorter than `n` behind it.
abbrev Shrinks : ℕ → Option (Str × Str) → Type 0
Shrinks n none = Unit
Shrinks n (some (before, after)) = length after < n

cons_Shrinks :
    (c n : ℕ) (o : Option (Str × Str))
    → Shrinks n o
    → Shrinks (suc n) (elim o [ none ↦ none | some (before, after) ↦ some (c ∷ before, after) ])
cons_Shrinks c n none h = tt
cons_Shrinks c n (some (before, after)) h = omega arith

split_colon-Shrinks : (s : Str) → Shrinks (length s) (split_colon s)
unfolding split_colon
split_colon-Shrinks [] = tt
split_colon-Shrinks (c ∷ s) = elim (Bool-cases (c == 58)) [
  | inl e ↦ rw (e, split_colon) (omega arith)
  | inr e ↦ rw (e, split_colon) (cons_Shrinks c (length s) (split_colon s) (split_colon-Shrinks s))
]

read_segment-Shrinks : (key : Str) → Shrinks (length key) (read_segment key)
unfolding read_segment
read_segment-Shrinks key = elim (Option-cases (split_colon key)) [
  | inl h ↦ rw (h, read_segment) tt
  | inr ((raw, after), h) ↦
      let shorter : length after < length key = rw h at (split_colon-Shrinks key) in
      rw (h, read_segment)
        (elim (Bool-cases (
          is_decimal raw
          && (leb (to_number 0 raw) max_safe_integer && leb (to_number 0 raw) (length after)))) [
            | inl e ↦ rw e (omega (arith, length-drop (to_number 0 raw) after))
            | inr e ↦ rw e tt
          ])
]

after_part-some :
    (part : Str) (o : Option (List Str))
    → (r : Option (List Str)) × (after_part part (some o) ≡ some r)
unfolding after_part
after_part-some part none = (none, refl)
after_part-some part (some parts) = (some (part ∷ parts), refl)

parse_from-covered :
    (fuel : ℕ) (key : Str)
    → length key ≤ fuel
    → (r : Option (List Str)) × (parse_from fuel key ≡ some r)
unfolding parse_from
parse_from-covered fuel [] h = (some [], refl)
parse_from-covered zero (c ∷ s) h = absurd (omega arith)
parse_from-covered (suc fuel) (c ∷ s) h = elim (Option-cases (read_segment (c ∷ s))) [
  | inl e ↦ (none, rw (e, parse_from) refl)
  | inr ((part, rest), e) ↦
      let shorter : length rest < length (c ∷ s) = rw e at (read_segment-Shrinks (c ∷ s)) in
      let (parts, ended) = parse_from-covered fuel rest (omega arith) in
      let (r, pushed) = after_part-some part parts in (r, rw (e, parse_from) (rw ended pushed))
]

no_result : (part : Str) (r : Option (List Str)) → ¬ (after_part part none ≡ some r)
unfolding after_part
no_result part r h = cc

parse_from-more :
    (f g : ℕ) (key : Str) (r : Option (List Str))
    → f ≤ g
    → parse_from f key ≡ some r
    → parse_from g key ≡ some r
unfolding parse_from after_part
parse_from-more f g [] r le h = h
parse_from-more zero g (c ∷ s) r le h = cc
parse_from-more (suc f) zero (c ∷ s) r le h = absurd (omega arith)
parse_from-more (suc f) (suc g) (c ∷ s) r le h = elim (Option-cases (read_segment (c ∷ s))) [
  | inl e ↦
      let less : parse_from (suc f) (c ∷ s) ≡ some none = rw (e, parse_from) refl in
      let more : parse_from (suc g) (c ∷ s) ≡ some none = rw (e, parse_from) refl in
      more ∙ sym less ∙ h
  | inr ((part, rest), e) ↦
      let less = parse_from-step f (c ∷ s) part rest e in
      let more = parse_from-step g (c ∷ s) part rest e in
      elim (Option-cases (parse_from f rest)) [
        | inl out ↦ absurd (no_result part r (ap (after_part part) (sym out) ∙ sym less ∙ h))
        | inr (parts, ended) ↦
            more
            ∙ ap (after_part part) (parse_from-more f g rest parts (omega arith) ended ∙ sym ended)
            ∙ sym less
            ∙ h
      ]
]

-- On every text the loop ends: with fuel for its length or more it returns, and what it returns is
-- the result of `parseCompositeKey`, undefined for a malformed text.
pub parse_from-parse_composite_key :
    (fuel : ℕ) (key : Str)
    → length key ≤ fuel
    → parse_from fuel key ≡ some (parse_composite_key key)
unfolding parse_composite_key
parse_from-parse_composite_key fuel key h =
    let (r, e) = parse_from-covered (length key) key (omega arith) in
    let same : parse_composite_key key ≡ r = rw (e, parse_composite_key) refl in
    parse_from-more (length key) fuel key r h e ∙ ap some (sym same)
