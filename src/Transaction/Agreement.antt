-- ===== src/Transaction/Agreement.antt =====
-- The cached markers of src/core/apply/transaction.ts and those on disk.
use react_native_dblayer.Base.{
  ℕ, Bool, true, false, Option, none, some, List, [], ◌∷◌, ◌++◌, ◌≡◌, refl, sym, ◌∙◌, ap, subst,
  arith, every, ◌⊎◌, inl, inr, Bool-cases, Option-cases,
}
use react_native_dblayer.Base.Str.{Str, str_eq, str_eq_iff}
use react_native_dblayer.Base.StrMap
use react_native_dblayer.Base.Value.{Number, Value}
use react_native_dblayer.Transaction.DeltaLog.{delta_key, snapseq_key, read_snapseq}
use react_native_dblayer.Transaction.Flush.{Runtime, covers, snapseq_of, all_cover, cached_or_read}

pub str_eq-append : (p s t : Str) → str_eq (p ++ s) (p ++ t) ≡ str_eq s t
unfolding str_eq
str_eq-append [] s t = refl
str_eq-append (c ∷ p) s t = ground (arith, str_eq-append p s t)

-- A delta key is never the key of a marker.
pub delta_key-snapseq_key :
    (prefix : Str) (seq : ℕ) (model : Str)
    → str_eq (delta_key prefix seq) (snapseq_key prefix model) ≡ false
unfolding delta_key snapseq_key str_eq
delta_key-snapseq_key prefix seq model = str_eq-append prefix _ _

some-injective : {a b : Option ℕ} → some a ≡ some b → a ≡ b
some-injective e = cc

module _ (number_of : Str → Number) (stringify : Value → Str) (accepts : Str → Bool)
    (prefix : Str) where
  -- The marker of a model on disk.
  unfoldable pub marker : Runtime → Str → Option ℕ
  marker runtime model = read_snapseq number_of runtime.storage prefix model

  -- The cached markers are those on disk.
  abbrev pub IsCoherent : Runtime → Type 0
  IsCoherent runtime =
      (model : Str)
      → (StrMap.get model runtime.snapseq_cache ≡ none)
        ⊎ (StrMap.get model runtime.snapseq_cache ≡ some (marker runtime model))

  abbrev pub Agrees : Runtime → Type 0
  Agrees runtime =
      (model : Str) (value : Option ℕ)
      → StrMap.get model runtime.snapseq_cache ≡ some value
      → value ≡ marker runtime model

  pub coherent-Agrees : (runtime : Runtime) → IsCoherent runtime → Agrees runtime
  coherent-Agrees runtime c model value e = elim (c model) [
    | inl n ↦ absurd (ground (arith, n, e))
    | inr held ↦ some-injective (sym e ∙ held)
  ]

  pub Agrees-IsCoherent : (runtime : Runtime) → Agrees runtime → IsCoherent runtime
  Agrees-IsCoherent runtime c model = elim (Option-cases (StrMap.get model runtime.snapseq_cache)) [
    | inl n ↦ inl n
    | inr (value, e) ↦ inr (e ∙ ap (λ v. some v) (c model value e))
  ]

  -- Storage is as before and the cache still agrees with it.
  abbrev pub IsKept : Runtime → Runtime → Type 0
  IsKept before after = (after.storage ≡ before.storage) × Agrees after

  read-IsKept :
      (model : Str) (cached : Option (Option ℕ)) (runtime : Runtime)
      → StrMap.get model runtime.snapseq_cache ≡ cached
      → Agrees runtime
      → ((cached_or_read number_of stringify accepts prefix model cached runtime).0
          ≡ marker runtime model)
        × IsKept runtime
            ((cached_or_read number_of stringify accepts prefix model cached runtime).1)
  unfolding cached_or_read marker
  read-IsKept model (some cached) runtime e c = (c model cached e, (refl, c))
  read-IsKept model none runtime e c = (
    refl,
    (
      refl,
      λ m value h. elim (Bool-cases (str_eq model m)) [
        | inl t ↦ ground (
          arith,
          StrMap.get-set model m (read_snapseq number_of runtime.storage prefix model)
              runtime.snapseq_cache,
          str_eq_iff model m,
        )
        | inr f ↦ c m value (
            ground (
              arith,
              StrMap.get-set model m (read_snapseq number_of runtime.storage prefix model)
                  runtime.snapseq_cache,
            ))
      ],
    ),
  )

  -- Where every model is found to cover a number, their markers on disk do.
  pub all_cover-IsKept :
      (seq : ℕ) (models : List Str) (runtime : Runtime)
      → Agrees runtime
      → IsKept runtime ((all_cover number_of stringify accepts prefix seq models runtime).1)
        × ((all_cover number_of stringify accepts prefix seq models runtime).0 ≡ true
            → every (λ model. covers (marker runtime model) seq) models ≡ true)
  unfolding all_cover every snapseq_of marker
  all_cover-IsKept seq [] runtime c = ((refl, c), λ h. refl)
  all_cover-IsKept seq (model ∷ models) runtime c =
      let (value, (same, c')) =
        read-IsKept model (StrMap.get model runtime.snapseq_cache) runtime refl c in
      let next = (snapseq_of number_of stringify accepts prefix model runtime).1 in
      let ((same', c''), rest) = all_cover-IsKept seq models next c' in
      elim (Bool-cases
        (covers ((snapseq_of number_of stringify accepts prefix model runtime).0) seq)) [
          | inl t ↦
              rw (t, all_cover)
                (
                  (same' ∙ same, c''),
                  λ h.
                      let others : every
                            (λ m. covers (read_snapseq number_of runtime.storage prefix m) seq)
                            models
                          ≡ true =
                        subst
                          (λ st.
                            every (λ m. covers (read_snapseq number_of st prefix m) seq) models
                            ≡ true)
                          same (rest h) in
                      ground (arith, others, value, t),
                )
          | inr f ↦ rw (f, all_cover) ((same, c'), λ h. absurd (ground arith))
        ]
