-- ===== src/CommitBus/Publish.antt =====
-- Which subscribers `publish` of src/core/apply/commitBus.ts notifies.
use react_native_dblayer.Base.{
  ℕ, ◌≡◌, refl, ap, Bool, true, false, ◌&&◌, ◌||◌, List, [], ◌∷◌, ◌++◌, map, arith, ◌==◌, any, keep,
  Bool-cases, inl, inr, ==_iff,
}
use react_native_dblayer.Base.Str.{Str, str_eq, str_eq_iff, str_eq_refl}
use react_native_dblayer.Base.StrSet
use react_native_dblayer.Base.StrSet.{StrSet}
use react_native_dblayer.Base.StrMap.{StrMap}
use react_native_dblayer.CommitBus.{
  Bus, CommitBatch, RowChange, ScopeChange, PendingChange, Dependency, row, scope, model, pending,
  dep_model, dep_matches, row_matches, has_ref, add_ref, bucket, batch_models, add_refs,
  candidates_from, is_empty_batch, publish,
}
use react_native_dblayer.CommitBus.Coherent.{IsCoherent, depends_on, has_ref-add_ref, has-add_names}

has_ref-add_refs :
    (r : ℕ) (refs found : List ℕ)
    → has_ref r (add_refs refs found) ≡ (has_ref r refs || has_ref r found)
unfolding add_refs has_ref any
has_ref-add_refs r [] found = refl
has_ref-add_refs r (x ∷ refs) found =
    ground (arith, has_ref-add_refs r refs (add_ref x found), has_ref-add_ref x r found)

has_ref-candidates_from :
    (r : ℕ) (models : StrSet) (buckets : StrMap (List ℕ)) (found : List ℕ)
    → has_ref r (candidates_from models buckets found)
      ≡ (any (λ m. has_ref r (bucket m buckets)) models || has_ref r found)
unfolding candidates_from any
has_ref-candidates_from r [] buckets found = refl
has_ref-candidates_from r (m ∷ models) buckets found = ground (
  arith,
  has_ref-candidates_from r models buckets (add_refs (bucket m buckets) found),
  has_ref-add_refs r (bucket m buckets) found,
)

has_ref-keep :
    (r : ℕ) (p : ℕ → Bool) (refs : List ℕ) → has_ref r (keep p refs) ≡ (has_ref r refs && p r)
unfolding has_ref any keep
has_ref-keep r p [] = refl
has_ref-keep r p (x ∷ refs) = elim (Bool-cases (x == r)) [
  | inr other ↦ ground (arith, has_ref-keep r p refs)
  | inl same ↦ ground (arith, has_ref-keep r p refs, ap p ((==_iff x r).0 same))
]

has-append :
    (m : Str) (xs ys : List Str) → StrSet.has m (xs ++ ys) ≡ (StrSet.has m xs || StrSet.has m ys)
unfolding StrSet.has
has-append m [] ys = refl
has-append m (x ∷ xs) ys = ground (arith, has-append m xs ys)

-- A list of changes with one of a model has the model among the models of its changes.
module _ {A : Type 0} (model_of : A → Str) (p : A → Bool) (m : Str) where
  has-map-any :
      (cs : List A)
      → ((c : A) → p c ≡ true → str_eq (model_of c) m ≡ true)
      → any p cs ≡ true
      → StrSet.has m (map model_of cs) ≡ true
  unfolding any StrSet.has
  has-map-any [] h a = cc
  has-map-any (c ∷ cs) h a = ground (arith, has-map-any cs h, h c)

has_batch_model :
    (m : Str) (batch : CommitBatch)
    → StrSet.has m (batch_models batch) ≡ (
        StrSet.has m (map (λ c. c.model) batch.rows)
        || (StrSet.has m (map (λ c. c.model) batch.scopes)
            || StrSet.has m (map (λ c. c.model) batch.pending)))
unfolding batch_models
has_batch_model m batch =
    let rows = map (λ c. c.model) batch.rows in
    let scopes = map (λ c. c.model) batch.scopes in
    let pendings = map (λ c. c.model) batch.pending in
    ground (
      arith,
      has-add_names m (rows ++ (scopes ++ pendings)) [],
      has-append m rows (scopes ++ pendings),
      has-append m scopes pendings,
      has_nothing m,
    )
  where
    has_nothing : (m : Str) → StrSet.has m [] ≡ false
    has_nothing m = unfold StrSet.has in refl

dep_matches-batch_models :
    (batch : CommitBatch) (d : Dependency)
    → dep_matches batch d ≡ true
    → StrSet.has (dep_model d) (batch_models batch) ≡ true
unfolding dep_matches row_matches
dep_matches-batch_models batch (row m id fields) h = ground (
  arith,
  has_batch_model m batch,
  has-map-any (λ c. c.model) (λ c. row_matches m id fields c) m batch.rows
      (λ c e. ground (arith, str_eq_iff m c.model, str_eq_iff c.model m)) h,
)
dep_matches-batch_models batch (scope m key) h = ground (
  arith,
  has_batch_model m batch,
  has-map-any (λ c. c.model) (λ c. str_eq c.model m && str_eq c.scope_key key) m batch.scopes
      (λ c e. ground arith) h,
)
dep_matches-batch_models batch (pending m id) h = ground (
  arith,
  has_batch_model m batch,
  has-map-any (λ c. c.model) (λ c. str_eq c.model m && str_eq c.id id) m batch.pending
      (λ c e. ground arith) h,
)
dep_matches-batch_models batch (model m) h = ground (
  arith,
  has_batch_model m batch,
  has-map-any (λ c. c.model) (λ c. str_eq c.model m) m batch.rows (λ c e. e),
  has-map-any (λ c. c.model) (λ c. str_eq c.model m) m batch.scopes (λ c e. e),
)

any-has :
    (q : Str → Bool) (m : Str) (models : StrSet)
    → StrSet.has m models ≡ true
    → q m ≡ true
    → any q models ≡ true
unfolding any StrSet.has
any-has q m [] h k = cc
any-has q m (j ∷ models) h k = elim (Bool-cases (str_eq j m)) [
  | inl same ↦ ground (arith, ap q ((str_eq_iff j m).0 same))
  | inr other ↦ ground (arith, any-has q m models)
]

any-and_left :
    (b : Bool) (q p : Str → Bool) (models : StrSet)
    → ((m : Str) → q m ≡ (b && p m))
    → any q models ≡ (b && any p models)
unfolding any
any-and_left b q p [] h = ground arith
any-and_left b q p (m ∷ models) h = ground (arith, any-and_left b q p models h, h m)

found_model :
    (batch : CommitBatch) (deps : List Dependency)
    → any (dep_matches batch) deps ≡ true
    → (m : Str) × (StrSet.has m (batch_models batch) ≡ true) × (depends_on m deps ≡ true)
unfolding any StrSet.has
found_model batch [] h = cc
found_model batch (d ∷ deps) h = elim (Bool-cases (dep_matches batch d)) [
  | inl hit ↦
      (dep_model d, dep_matches-batch_models batch d hit, ground (arith, str_eq_refl (dep_model d)))
  | inr miss ↦
      let (m, inside, there) = found_model batch deps (ground arith) in
      (m, inside, ground (arith, there))
]

-- A dependency that matches is on a model of the batch.
any_dep-batch_models :
    (batch : CommitBatch) (deps : List Dependency)
    → any (dep_matches batch) deps ≡ true
    → any (λ m. depends_on m deps) (batch_models batch) ≡ true
any_dep-batch_models batch deps h =
    let (m, inside, there) = found_model batch deps h in
    any-has (λ j. depends_on j deps) m (batch_models batch) inside there

any-never :
    (p : Dependency → Bool) (deps : List Dependency)
    → ((d : Dependency) → p d ≡ false)
    → any p deps ≡ false
unfolding any
any-never p [] h = refl
any-never p (d ∷ deps) h = ground (arith, h d, any-never p deps h)

-- No dependency matches a batch without changes.
empty_batch-no_match :
    (rows : List RowChange) (scopes : List ScopeChange) (pendings : List PendingChange)
    (d : Dependency)
    → is_empty_batch (record { rows = rows; scopes = scopes; pending = pendings }) ≡ true
    → dep_matches (record { rows = rows; scopes = scopes; pending = pendings }) d ≡ false
unfolding dep_matches is_empty_batch any
empty_batch-no_match [] [] [] (row m id fields) h = refl
empty_batch-no_match [] [] [] (scope m key) h = refl
empty_batch-no_match [] [] [] (model m) h = refl
empty_batch-no_match [] [] [] (pending m id) h = refl
empty_batch-no_match [] [] (c ∷ cs) d h = cc
empty_batch-no_match [] (c ∷ cs) pendings d h = cc
empty_batch-no_match (c ∷ cs) scopes pendings d h = cc

has_ref-candidates :
    (r : ℕ) (batch : CommitBatch) (b : Bus)
    → IsCoherent b
    → has_ref r (candidates_from (batch_models batch) b.subscribers_by_model [])
      ≡ (has_ref r b.subscribers && any (λ m. depends_on m (b.deps_of r)) (batch_models batch))
has_ref-candidates r batch b c =
    let listed = has_ref-candidates_from r (batch_models batch) b.subscribers_by_model [] in
    let split =
      any-and_left (has_ref r b.subscribers) (λ m. has_ref r (bucket m b.subscribers_by_model))
        (λ m. depends_on m (b.deps_of r)) (batch_models batch) (λ m. c.buckets m r) in
    ground (arith, listed, split, nobody r)
  where
    nobody : (r : ℕ) → has_ref r [] ≡ false
    nobody r = unfold has_ref any in refl

-- On a bus whose model buckets are coherent, a publish of any batch notifies exactly the
-- subscribers that have a dependency matching the batch, though it looks only at the buckets of
-- the batch's models.
pub publish-notified :
    (batch : CommitBatch) (b : Bus) (r : ℕ)
    → IsCoherent b
    → has_ref r (publish batch b).notified
      ≡ (has_ref r b.subscribers && any (dep_matches batch) (b.deps_of r))
unfolding publish
publish-notified batch b r c = elim (Bool-cases (is_empty_batch batch)) [
  | inl empty ↦
      let never =
        any-never (dep_matches batch) (b.deps_of r)
          (λ d. empty_batch-no_match batch.rows batch.scopes batch.pending d empty) in
      rw empty (ground (arith, never, nobody r))
  | inr full ↦ rw full (
      ground (
        arith,
        has_ref-keep r (λ x. any (dep_matches batch) (b.deps_of x))
            (candidates_from (batch_models batch) b.subscribers_by_model []),
        has_ref-candidates r batch b c,
        any_dep-batch_models batch (b.deps_of r),
      ))
]
  where
    nobody : (r : ℕ) → has_ref r [] ≡ false
    nobody r = unfold has_ref any in refl
