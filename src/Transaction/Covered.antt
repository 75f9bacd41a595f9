-- ===== src/Transaction/Covered.antt =====
-- The compaction of src/core/apply/transaction.ts deletes no delta that a snapshot still needs.
use react_native_dblayer.Base.{
  ℕ, suc, Bool, true, false, some, List, [], ◌∷◌, ◌≡◌, refl, sym, ◌∙◌, ap, subst, arith,
  if◌then◌else◌, every, ◌⊎◌, inl, inr, Bool-cases, get_elem?,
}
use react_native_dblayer.Base.Str.{Str, str_eq, str_eq_iff}
use react_native_dblayer.Base.StrMap
use react_native_dblayer.Base.Value.{Number, Value}
use react_native_dblayer.Transaction.DeltaLog.{Storage, delta_key, snapseq_key, read_snapseq}
use react_native_dblayer.Transaction.Flush.{
  Runtime, Outcome, put, covers, write, and_then, all_cover, drop_covered, compact,
}
use react_native_dblayer.Transaction.Agreement.{
  delta_key-snapseq_key, marker, IsCoherent, Agrees, coherent-Agrees, Agrees-IsCoherent, IsKept,
  all_cover-IsKept,
}

module _ (number_of : Str → Number) (stringify : Value → Str) (accepts : Str → Bool)
    (prefix : Str) where
  deleted-marker :
      (seq : ℕ) (storage : Storage) (model : Str)
      → read_snapseq number_of (StrMap.delete (delta_key prefix seq) storage) prefix model
        ≡ read_snapseq number_of storage prefix model
  unfolding read_snapseq
  deleted-marker seq storage model =
      let same : StrMap.get (snapseq_key prefix model)
            (StrMap.delete (delta_key prefix seq) storage)
          ≡ StrMap.get (snapseq_key prefix model) storage =
        ground (
          arith,
          StrMap.get-delete (delta_key prefix seq) (snapseq_key prefix model) storage,
          delta_key-snapseq_key prefix seq model,
        ) in
      rw (same, read_snapseq) refl

  -- What a step of the compaction may do: the markers stay, the cache agrees with them, and a key
  -- that changes is the key of a covered delta.
  abbrev pub IsSafeStep : (Runtime → Str → Type 0) → Runtime → Runtime → Type 0
  IsSafeStep Covered before after =
      ((model : Str)
        → marker number_of stringify accepts prefix after model
          ≡ marker number_of stringify accepts prefix before model)
      × Agrees number_of stringify accepts prefix after
      × ((key : Str)
          → (StrMap.get key after.storage ≡ StrMap.get key before.storage) ⊎ Covered before key)

  abbrev pub IsCoveredKey : ℕ → List Str → Runtime → Str → Type 0
  IsCoveredKey seq models runtime key =
      (key ≡ delta_key prefix seq)
      × (every (λ model. covers (marker number_of stringify accepts prefix runtime model) seq)
            models
          ≡ true)

  dropped-storage :
      (seq : ℕ) (next : Runtime)
      → ((drop_covered number_of stringify accepts prefix seq (true, next)).runtime.storage ≡ (
          if accepts (delta_key prefix seq)
          then StrMap.delete (delta_key prefix seq) next.storage
          else next.storage))
        × ((drop_covered number_of stringify accepts prefix seq (true, next)).runtime.snapseq_cache
            ≡ next.snapseq_cache)
  unfolding drop_covered and_then write put
  dropped-storage seq next = elim (Bool-cases (accepts (delta_key prefix seq))) [
    | inl t ↦ (rw t refl, rw t refl)
    | inr f ↦ (rw f refl, rw f refl)
  ]

  cached-Agrees :
      (next after : Runtime)
      → ((model : Str)
          → marker number_of stringify accepts prefix after model
            ≡ marker number_of stringify accepts prefix next model)
      → after.snapseq_cache ≡ next.snapseq_cache
      → Agrees number_of stringify accepts prefix next
      → Agrees number_of stringify accepts prefix after
  cached-Agrees next after same cached c model value h =
      c model value (subst (λ cache. StrMap.get model cache ≡ some value) cached h)
      ∙ sym (same model)

  deleted-IsSafeStep :
      (seq : ℕ) (models : List Str) (before next after : Runtime)
      → IsKept number_of stringify accepts prefix before next
      → after.storage ≡ StrMap.delete (delta_key prefix seq) next.storage
      → after.snapseq_cache ≡ next.snapseq_cache
      → every (λ model. covers (marker number_of stringify accepts prefix before model) seq) models
        ≡ true
      → IsSafeStep (IsCoveredKey seq models) before after
  unfolding marker
  deleted-IsSafeStep seq models before next after (same, c) gone cached all =
      let markers : (model : Str)
          → marker number_of stringify accepts prefix after model
            ≡ marker number_of stringify accepts prefix next model =
        λ model.
          ap (λ st. read_snapseq number_of st prefix model) gone
          ∙ deleted-marker seq next.storage model in
      (
        (λ model. markers model ∙ ap (λ st. read_snapseq number_of st prefix model) same),
        cached-Agrees next after markers cached c,
        λ key. elim (Bool-cases (str_eq (delta_key prefix seq) key)) [
          | inl t ↦ inr (ground (arith, str_eq_iff (delta_key prefix seq) key), all)
          | inr f ↦ inl (
              ap (StrMap.get key) gone
              ∙ StrMap.get-delete (delta_key prefix seq) key next.storage
              ∙ rw f (ap (StrMap.get key) same))
        ],
      )

  stayed-IsSafeStep :
      (seq : ℕ) (models : List Str) (before next after : Runtime)
      → IsKept number_of stringify accepts prefix before next
      → after.storage ≡ next.storage
      → after.snapseq_cache ≡ next.snapseq_cache
      → IsSafeStep (IsCoveredKey seq models) before after
  unfolding marker
  stayed-IsSafeStep seq models before next after (same, c) stored cached =
      let markers : (model : Str)
          → marker number_of stringify accepts prefix after model
            ≡ marker number_of stringify accepts prefix next model =
        λ model. ap (λ st. read_snapseq number_of st prefix model) stored in
      (
        (λ model. markers model ∙ ap (λ st. read_snapseq number_of st prefix model) same),
        cached-Agrees next after markers cached c,
        λ key. inl (ap (StrMap.get key) (stored ∙ same)),
      )

  dropped-IsSafeStep :
      (seq : ℕ) (models : List Str) (runtime : Runtime) (found : Bool × Runtime)
      → IsKept number_of stringify accepts prefix runtime found.1
      → (found.0 ≡ true
          → every
              (λ model. covers (marker number_of stringify accepts prefix runtime model) seq)
              models
            ≡ true)
      → IsSafeStep
          (IsCoveredKey seq models)
          runtime
          ((drop_covered number_of stringify accepts prefix seq found).runtime)
  unfolding drop_covered marker
  dropped-IsSafeStep seq models runtime (false, next) (same, c) all = (
    (λ model. ap (λ st. read_snapseq number_of st prefix model) same),
    c,
    λ key. inl (ap (StrMap.get key) same),
  )
  dropped-IsSafeStep seq models runtime (true, next) kept all =
      let (stored, cached) = dropped-storage seq next in
      elim (Bool-cases (accepts (delta_key prefix seq))) [
        | inl t ↦
            deleted-IsSafeStep seq models runtime next
              ((drop_covered number_of stringify accepts prefix seq (true, next)).runtime) kept
              (stored ∙ rw t refl) cached (all refl)
        | inr f ↦
            stayed-IsSafeStep seq models runtime next
              ((drop_covered number_of stringify accepts prefix seq (true, next)).runtime) kept
              (stored ∙ rw f refl) cached
      ]

  abbrev pub IsPendingKey : List (ℕ × List Str) → Runtime → Str → Type 0
  IsPendingKey pending runtime key =
      (i seq : ℕ) × (models : List Str) × (get_elem? pending i ≡ some (seq, models))
      × IsCoveredKey seq models runtime key

  either-IsSafeStep :
      (Covered : Runtime → Str → Type 0) (before : Runtime) (b : Bool) (x y : Outcome)
      → IsSafeStep Covered before x.runtime
      → IsSafeStep Covered before y.runtime
      → IsSafeStep Covered before ((if b then x else y).runtime)
  either-IsSafeStep Covered before true x y p q = p
  either-IsSafeStep Covered before false x y p q = q

  covered_before :
      (seq : ℕ) (models : List Str) (before after : Runtime)
      → ((model : Str)
          → marker number_of stringify accepts prefix after model
            ≡ marker number_of stringify accepts prefix before model)
      → every (λ model. covers (marker number_of stringify accepts prefix after model) seq) models
        ≡ true
      → every (λ model. covers (marker number_of stringify accepts prefix before model) seq) models
        ≡ true
  unfolding every
  covered_before seq [] before after same h = refl
  covered_before seq (model ∷ models) before after same h =
      ground (arith, covered_before seq models before after same, same model)

  later-IsSafeStep :
      (seq : ℕ) (models : List Str) (pending : List (ℕ × List Str)) (before next after : Runtime)
      → IsSafeStep (IsPendingKey ((seq, models) ∷ pending)) before next
      → IsSafeStep (IsPendingKey pending) next after
      → IsSafeStep (IsPendingKey ((seq, models) ∷ pending)) before after
  later-IsSafeStep seq models pending before next after (m, c, k) (m', c', k') = (
    (λ model. m' model ∙ m model),
    c',
    λ key. elim (k' key) [
      | inl e' ↦ elim (k key) [ inl e ↦ inl (e' ∙ e) | inr held ↦ inr held ]
      | inr (i, s, ms, at, (same, all)) ↦
          inr (suc i, s, ms, at, (same, covered_before s ms before next m all))
    ],
  )

  pub compacted-IsSafeStep :
      (pending : List (ℕ × List Str)) (runtime : Runtime)
      → Agrees number_of stringify accepts prefix runtime
      → IsSafeStep
          (IsPendingKey pending)
          runtime
          ((compact number_of stringify accepts prefix pending runtime).runtime)
  unfolding compact and_then
  compacted-IsSafeStep [] runtime c = ((λ model. refl), c, λ key. inl refl)
  compacted-IsSafeStep ((seq, models) ∷ pending) runtime c =
      let (kept, all) = all_cover-IsKept number_of stringify accepts prefix seq models runtime c in
      let found = all_cover number_of stringify accepts prefix seq models runtime in
      let first = dropped-IsSafeStep seq models runtime found kept all in
      let outcome = drop_covered number_of stringify accepts prefix seq found in
      let here : IsSafeStep (IsPendingKey ((seq, models) ∷ pending)) runtime outcome.runtime = (
        first.0,
        first.1,
        λ key. elim (first.2 key) [ inl e ↦ inl e | inr held ↦ inr (0, seq, models, refl, held) ],
      ) in
      either-IsSafeStep (IsPendingKey ((seq, models) ∷ pending)) runtime outcome.threw outcome
        (compact number_of stringify accepts prefix pending outcome.runtime) here
        (later-IsSafeStep seq models pending runtime outcome.runtime _ here
          (compacted-IsSafeStep pending outcome.runtime first.1))

  -- What a compaction of pending deltas may do.
  abbrev pub IsSafe : List (ℕ × List Str) → Runtime → Runtime → Type 0
  IsSafe pending before after =
      ((model : Str)
        → marker number_of stringify accepts prefix after model
          ≡ marker number_of stringify accepts prefix before model)
      × IsCoherent number_of stringify accepts prefix after
      × ((key : Str)
          → (StrMap.get key after.storage ≡ StrMap.get key before.storage)
            ⊎ IsPendingKey pending before key)

  -- The compaction, whether or not a write is refused on the way, changes no marker, and a key of
  -- storage that it changes is the key of a pending delta whose models' markers on disk all cover
  -- it. The cached markers have to agree with those on disk,
  -- and go on to.
  pub compact-IsSafe :
      (pending : List (ℕ × List Str)) (runtime : Runtime)
      → IsCoherent number_of stringify accepts prefix runtime
      → IsSafe pending runtime
          ((compact number_of stringify accepts prefix pending runtime).runtime)
  compact-IsSafe pending runtime c =
      let (markers, agrees, keys) =
        compacted-IsSafeStep pending runtime
          (coherent-Agrees number_of stringify accepts prefix runtime c) in
      (markers, Agrees-IsCoherent number_of stringify accepts prefix _ agrees, keys)
