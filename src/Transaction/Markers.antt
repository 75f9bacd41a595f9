-- ===== src/Transaction/Markers.antt =====
-- The cached markers of src/core/apply/transaction.ts agree with those on disk through a flush.
use react_native_dblayer.Base.{
  ℕ, Bool, true, false, not, Option, none, some, List, [], ◌∷◌, ◌≡◌, refl, sym, ◌∙◌, arith,
  if◌then◌else◌, every, inl, inr, Bool-cases,
}
use react_native_dblayer.Base.Str.{Str, str_eq, text}
use react_native_dblayer.Base.StrMap
use react_native_dblayer.Base.Value.{Number, Value}
use react_native_dblayer.Transaction.DeltaLog.{Storage, snapseq_key, read_snapseq, safe_integer}
use react_native_dblayer.Transaction.Flush.{
  Runtime, Outcome, put, last_seq, marker_text, write, and_then, write_all, landed, flush_models,
  compact, flush_cache_snapshots,
}
use react_native_dblayer.Transaction.Agreement.{
  str_eq-append, marker, IsCoherent, Agrees, coherent-Agrees, Agrees-IsCoherent,
}
use react_native_dblayer.Transaction.Covered.{compacted-IsSafeStep}

snapseq_key-injective :
    (prefix a b : Str) → str_eq (snapseq_key prefix a) (snapseq_key prefix b) ≡ str_eq a b
unfolding snapseq_key
snapseq_key-injective prefix a b = str_eq-append prefix _ _ ∙ str_eq-append (text "snapseq:") a b

if_case :
    (P : Outcome → Type 0) (b : Bool) (x y : Outcome)
    → (b ≡ true → P x)
    → (b ≡ false → P y)
    → P (if b then x else y)
if_case P true x y p q = p refl
if_case P false x y p q = q refl

module _ (number_of : Str → Number) (stringify : Value → Str) (accepts : Str → Bool)
    (prefix : Str) where
  then_by_case :
      (P : Runtime → Type 0) (outcome : Outcome) (next : Runtime → Outcome)
      → (outcome.threw ≡ true → P outcome.runtime)
      → (outcome.threw ≡ false → P (next outcome.runtime).runtime)
      → P (and_then number_of stringify accepts prefix outcome next).runtime
  unfolding and_then
  then_by_case P outcome next p q =
      if_case (λ o. P o.runtime) outcome.threw outcome (next outcome.runtime) p q

  write_by_case :
      (P : Outcome → Type 0) (key : Str) (value : Option Str) (runtime : Runtime)
      → P record {
        runtime = record runtime { storage = put key value runtime.storage };
        threw = false;
      }
      → P record { runtime = runtime; threw = true }
      → P (write number_of stringify accepts prefix key value runtime)
  unfolding write
  write_by_case P key value runtime p q = if_case P (accepts key) _ _ (λ t. p) (λ f. q)

  put-marker :
      (key : Str) (value : Option Str) (storage : Storage) (model : Str)
      → str_eq key (snapseq_key prefix model) ≡ false
      → read_snapseq number_of (put key value storage) prefix model
        ≡ read_snapseq number_of storage prefix model
  unfolding read_snapseq put
  put-marker key none storage model h =
      let same : StrMap.get (snapseq_key prefix model) (StrMap.delete key storage)
          ≡ StrMap.get (snapseq_key prefix model) storage =
        StrMap.get-delete key (snapseq_key prefix model) storage ∙ rw h refl in
      rw (same, read_snapseq) refl
  put-marker key (some v) storage model h =
      let same : StrMap.get (snapseq_key prefix model) (StrMap.set key v storage)
          ≡ StrMap.get (snapseq_key prefix model) storage =
        StrMap.get-set key (snapseq_key prefix model) v storage ∙ rw h refl in
      rw (same, read_snapseq) refl

  -- A write of a key that is no marker.
  write-Agrees :
      (key : Str) (value : Option Str) (runtime : Runtime)
      → ((model : Str) → str_eq key (snapseq_key prefix model) ≡ false)
      → Agrees number_of stringify accepts prefix runtime
      → Agrees number_of stringify accepts prefix
          ((write number_of stringify accepts prefix key value runtime).runtime)
  unfolding marker
  write-Agrees key value runtime h c =
      write_by_case (λ o. Agrees number_of stringify accepts prefix o.runtime) key value runtime
        (λ model v e. c model v e ∙ sym (put-marker key value runtime.storage model (h model))) c

  write_all-Agrees :
      (entries : List (Str × Option Str)) (runtime : Runtime)
      → ((model : Str)
          → every (λ entry. not (str_eq entry.0 (snapseq_key prefix model))) entries ≡ true)
      → Agrees number_of stringify accepts prefix runtime
      → Agrees number_of stringify accepts prefix
          ((write_all number_of stringify accepts prefix entries runtime).runtime)
  unfolding write_all every
  write_all-Agrees [] runtime h c = c
  write_all-Agrees ((key, value) ∷ entries) runtime h c =
      let written = write-Agrees key value runtime (λ model. ground (arith, h model)) c in
      then_by_case (Agrees number_of stringify accepts prefix)
        (write number_of stringify accepts prefix key value runtime)
        (write_all number_of stringify accepts prefix entries) (λ t. written)
        (λ f. write_all-Agrees entries _ (λ model. ground (arith, h model)) written)

  -- A marker that is written and then cached.
  landed-Agrees :
      (model : Str) (covered : Option ℕ) (runtime : Runtime)
      → safe_integer (number_of (marker_text covered)) ≡ covered
      → Agrees number_of stringify accepts prefix runtime
      → Agrees number_of stringify accepts prefix (
          (landed number_of stringify accepts prefix model covered record runtime {
            storage = put (snapseq_key prefix model) (some (marker_text covered)) runtime.storage;
          }).runtime)
  unfolding landed marker put read_snapseq
  landed-Agrees model covered runtime reads c m value e = elim (Bool-cases (str_eq model m)) [
    | inl t ↦
        let cached : some covered ≡ some value =
          sym (StrMap.get-set model m covered runtime.snapseq_cache ∙ rw t refl) ∙ e in
        let stored : StrMap.get (snapseq_key prefix m)
              (StrMap.set (snapseq_key prefix model) (marker_text covered) runtime.storage)
            ≡ some (marker_text covered) =
          StrMap.get-set (snapseq_key prefix model) (snapseq_key prefix m) (marker_text covered)
            runtime.storage
          ∙ rw (snapseq_key-injective prefix model m, t) refl in
        let read : read_snapseq number_of
              (StrMap.set (snapseq_key prefix model) (marker_text covered) runtime.storage) prefix m
            ≡ covered =
          rw (stored, read_snapseq) reads in
        let found : covered ≡ value = ground (arith, cached) in sym found ∙ sym read
    | inr f ↦
        let cached : StrMap.get m runtime.snapseq_cache ≡ some value =
          sym (StrMap.get-set model m covered runtime.snapseq_cache ∙ rw f refl) ∙ e in
        c m value cached
        ∙ sym (
            put-marker (snapseq_key prefix model) (some (marker_text covered)) runtime.storage m
              (snapseq_key-injective prefix model m ∙ f))
  ]

  -- The entries of every model leave the markers alone.
  abbrev pub AreApart : (Str → List (Str × Option Str)) → Type 0
  AreApart persist_entries =
      (model other : Str)
      → every (λ entry. not (str_eq entry.0 (snapseq_key prefix other))) (persist_entries model)
        ≡ true

  flush_models-Agrees :
      (persist_entries : Str → List (Str × Option Str)) (covered : Option ℕ) (models : List Str)
      (runtime : Runtime)
      → AreApart persist_entries
      → safe_integer (number_of (marker_text covered)) ≡ covered
      → Agrees number_of stringify accepts prefix runtime
      → Agrees number_of stringify accepts prefix (
          (flush_models number_of stringify accepts prefix persist_entries covered models
            runtime).runtime)
  unfolding flush_models and_then landed
  flush_models-Agrees persist_entries covered [] runtime apart reads c = c
  flush_models-Agrees persist_entries covered (model ∷ models) runtime apart reads c =
      let written = write_all-Agrees (persist_entries model) runtime (apart model) c in
      then_by_case (Agrees number_of stringify accepts prefix)
        (write_all number_of stringify accepts prefix (persist_entries model) runtime)
        (λ next.
          and_then number_of stringify accepts prefix
            (write number_of stringify accepts prefix (snapseq_key prefix model)
              (some (marker_text covered)) next)
            (λ marked.
              and_then number_of stringify accepts prefix
                (landed number_of stringify accepts prefix model covered marked)
                (flush_models number_of stringify accepts prefix persist_entries covered models)))
        (λ t. written)
        (λ f.
          write_by_case
            (λ o.
              Agrees number_of stringify accepts prefix
                (and_then number_of stringify accepts prefix o (λ marked.
                  and_then number_of stringify accepts prefix
                    (landed number_of stringify accepts prefix model covered marked)
                    (flush_models number_of stringify accepts prefix persist_entries covered
                      models))).runtime)
            (snapseq_key prefix model) (some (marker_text covered))
            ((write_all number_of stringify accepts prefix (persist_entries model) runtime).runtime)
            (flush_models-Agrees persist_entries covered models _ apart reads (
              landed-Agrees model covered
                ((write_all number_of stringify accepts prefix (persist_entries model)
                  runtime).runtime)
                reads written))
            written)

  flush_cache_snapshots-Agrees :
      (persist_entries : Str → List (Str × Option Str)) (runtime : Runtime)
      → AreApart persist_entries
      → safe_integer (number_of (marker_text (last_seq runtime.delta_seq)))
        ≡ last_seq runtime.delta_seq
      → Agrees number_of stringify accepts prefix runtime
      → Agrees number_of stringify accepts prefix (
          (flush_cache_snapshots number_of stringify accepts prefix persist_entries
            runtime).runtime)
  unfolding flush_cache_snapshots
  flush_cache_snapshots-Agrees persist_entries runtime apart reads c =
      let flushed =
        flush_models-Agrees persist_entries (last_seq runtime.delta_seq) runtime.dirty_models
          runtime apart reads c in
      then_by_case (Agrees number_of stringify accepts prefix)
        (flush_models number_of stringify accepts prefix persist_entries
          (last_seq runtime.delta_seq) runtime.dirty_models runtime)
        (λ next. compact number_of stringify accepts prefix next.pending_delta_models next)
        (λ t. flushed)
        (λ f. (compacted-IsSafeStep number_of stringify accepts prefix _ _ flushed).1)

  -- A flush keeps the cached markers in agreement with those on disk, also when storage refuses a
  -- write on the way. The entries of the models are apart from the markers, and the text of the
  -- last number reads back as that number.
  pub flush_cache_snapshots-IsCoherent :
      (persist_entries : Str → List (Str × Option Str)) (runtime : Runtime)
      → AreApart persist_entries
      → safe_integer (number_of (marker_text (last_seq runtime.delta_seq)))
        ≡ last_seq runtime.delta_seq
      → IsCoherent number_of stringify accepts prefix runtime
      → IsCoherent number_of stringify accepts prefix (
          (flush_cache_snapshots number_of stringify accepts prefix persist_entries
            runtime).runtime)
  flush_cache_snapshots-IsCoherent persist_entries runtime apart reads c =
      Agrees-IsCoherent number_of stringify accepts prefix _ (
        flush_cache_snapshots-Agrees persist_entries runtime apart reads
          (coherent-Agrees number_of stringify accepts prefix runtime c))
