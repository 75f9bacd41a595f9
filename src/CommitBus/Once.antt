-- ===== src/CommitBus/Once.antt =====
-- `publish` of src/core/apply/commitBus.ts calls each subscriber at most once.
use react_native_dblayer.Base.{
  ℕ, ◌≡◌, refl, Bool, true, false, ◌&&◌, not, List, [], ◌∷◌, ◌++◌, arith, ◌==◌, any, any-append,
  keep, Bool-cases, inl, inr, ==_iff,
}
use react_native_dblayer.Base.StrSet.{StrSet}
use react_native_dblayer.Base.StrMap.{StrMap}
use react_native_dblayer.CommitBus.{
  Bus, CommitBatch, dep_matches, has_ref, add_ref, bucket, batch_models, add_refs, candidates_from,
  is_empty_batch, publish,
}

-- No identity stands twice in the list.
abbrev pub no_repeats : List ℕ → Bool
no_repeats [] = true
no_repeats (r ∷ refs) = not (has_ref r refs) && no_repeats refs

no_repeats-append :
    (refs : List ℕ) (r : ℕ)
    → no_repeats refs ≡ true
    → has_ref r refs ≡ false
    → no_repeats (refs ++ r ∷ []) ≡ true
unfolding has_ref any
no_repeats-append [] r h k = refl
no_repeats-append (x ∷ refs) r h k = ground (
  arith,
  no_repeats-append refs r,
  any-append (λ y. y == x) refs (r ∷ []),
  ==_iff r x,
  ==_iff x r,
)

no_repeats-add_ref :
    (r : ℕ) (refs : List ℕ) → no_repeats refs ≡ true → no_repeats (add_ref r refs) ≡ true
unfolding add_ref
no_repeats-add_ref r refs h = elim (Bool-cases (has_ref r refs)) [
  | inl there ↦ rw there h
  | inr new ↦ rw new (no_repeats-append refs r h new)
]

no_repeats-add_refs :
    (refs found : List ℕ) → no_repeats found ≡ true → no_repeats (add_refs refs found) ≡ true
unfolding add_refs
no_repeats-add_refs [] found h = h
no_repeats-add_refs (r ∷ refs) found h =
    no_repeats-add_refs refs (add_ref r found) (no_repeats-add_ref r found h)

no_repeats-candidates_from :
    (models : StrSet) (buckets : StrMap (List ℕ)) (found : List ℕ)
    → no_repeats found ≡ true
    → no_repeats (candidates_from models buckets found) ≡ true
unfolding candidates_from
no_repeats-candidates_from [] buckets found h = h
no_repeats-candidates_from (m ∷ models) buckets found h =
    no_repeats-candidates_from models buckets (add_refs (bucket m buckets) found)
      (no_repeats-add_refs (bucket m buckets) found h)

has_ref-keep_absent :
    (r : ℕ) (p : ℕ → Bool) (refs : List ℕ)
    → has_ref r refs ≡ false
    → has_ref r (keep p refs) ≡ false
unfolding has_ref any keep
has_ref-keep_absent r p [] h = refl
has_ref-keep_absent r p (x ∷ refs) h = ground (arith, has_ref-keep_absent r p refs)

no_repeats-keep :
    (p : ℕ → Bool) (refs : List ℕ) → no_repeats refs ≡ true → no_repeats (keep p refs) ≡ true
unfolding keep
no_repeats-keep p [] h = refl
no_repeats-keep p (r ∷ refs) h =
    ground (arith, no_repeats-keep p refs, has_ref-keep_absent r p refs)

-- A publish of any batch on any bus notifies each subscriber at most once.
pub publish-no_repeats :
    (batch : CommitBatch) (b : Bus) → no_repeats (publish batch b).notified ≡ true
unfolding publish
publish-no_repeats batch b = elim (Bool-cases (is_empty_batch batch)) [
  | inl empty ↦ rw empty refl
  | inr full ↦ rw full (
      no_repeats-keep (λ r. any (dep_matches batch) (b.deps_of r))
        (candidates_from (batch_models batch) b.subscribers_by_model [])
        (no_repeats-candidates_from (batch_models batch) b.subscribers_by_model [] refl))
]
