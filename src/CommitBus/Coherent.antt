-- ===== src/CommitBus/Coherent.antt =====
-- The model buckets of the commit bus hold each subscriber under the models of its dependencies.
use react_native_dblayer.Base.{
  ℕ, ◌<◌, ◌≡◌, refl, ap, sym, ◌∙◌, Bool, true, false, ◌&&◌, ◌||◌, not, none, some, List, [], ◌∷◌,
  map, arith, ◌==◌, if◌then◌else◌, any, any-append, keep, Bool-cases, Option-cases, inl, inr,
  ==_iff,
}
use react_native_dblayer.Base.Str.{Str, str_eq, str_eq_iff}
use react_native_dblayer.Base.StrSet
use react_native_dblayer.Base.StrSet.{StrSet}
use react_native_dblayer.Base.StrMap
use react_native_dblayer.Base.StrMap.{StrMap}
use react_native_dblayer.CommitBus.{
  Bus, Dependency, allocate, dep_model, has_ref, add_ref, delete_ref, bucket, add_names, models_of,
  add_to_model_buckets, put_bucket, remove_from_bucket, remove_from_model_buckets, subscribe,
  unsubscribe,
}

pub has_ref-add_ref :
    (r x : ℕ) (refs : List ℕ) → has_ref x (add_ref r refs) ≡ (r == x || has_ref x refs)
unfolding has_ref add_ref any
has_ref-add_ref r x refs = ground (arith, any-append (λ y. y == x) refs (r ∷ []), ==_iff r x)

pub has_ref-delete_ref :
    (r x : ℕ) (refs : List ℕ) → has_ref x (delete_ref r refs) ≡ (not (r == x) && has_ref x refs)
unfolding has_ref delete_ref any keep
has_ref-delete_ref r x [] = ground arith
has_ref-delete_ref r x (y ∷ refs) = ground (arith, has_ref-delete_ref r x refs)

pub has-add_names :
    (m : Str) (ms : List Str) (names : StrSet)
    → StrSet.has m (add_names ms names) ≡ (StrSet.has m ms || StrSet.has m names)
unfolding add_names StrSet.has
has-add_names m [] names = refl
has-add_names m (j ∷ ms) names =
    ground (arith, has-add_names m ms (StrSet.add j names), StrSet.has-add j m names)

bucket-set :
    (m k : Str) (refs : List ℕ) (buckets : StrMap (List ℕ))
    → bucket k (StrMap.set m refs buckets) ≡ (if str_eq m k then refs else bucket k buckets)
unfolding bucket
bucket-set m k refs buckets = rw (StrMap.get-set m k refs buckets, bucket) (ground arith)

bucket-put_bucket :
    (m k : Str) (refs : List ℕ) (buckets : StrMap (List ℕ))
    → bucket k (put_bucket m refs buckets) ≡ (if str_eq m k then refs else bucket k buckets)
unfolding bucket put_bucket
bucket-put_bucket m k [] buckets = rw (StrMap.get-delete m k buckets, bucket) (ground arith)
bucket-put_bucket m k (r ∷ refs) buckets =
    rw (StrMap.get-set m k (r ∷ refs) buckets, bucket) (ground arith)

has_ref-add_to_model_buckets :
    (r : ℕ) (models : StrSet) (buckets : StrMap (List ℕ)) (k : Str) (x : ℕ)
    → has_ref x (bucket k (add_to_model_buckets r models buckets))
      ≡ ((r == x && StrSet.has k models) || has_ref x (bucket k buckets))
unfolding add_to_model_buckets StrSet.has
has_ref-add_to_model_buckets r [] buckets k x = ground arith
has_ref-add_to_model_buckets r (m ∷ models) buckets k x =
    let added : StrMap (List ℕ) = StrMap.set m (add_ref r (bucket m buckets)) buckets in
    let rest = has_ref-add_to_model_buckets r models added k x in
    let here = ap (has_ref x) (bucket-set m k (add_ref r (bucket m buckets)) buckets) in
    elim (Bool-cases (str_eq m k)) [
      | inr other ↦ ground (arith, rest, here)
      | inl same ↦
          let at : bucket m buckets ≡ bucket k buckets =
            ap (λ j. bucket j buckets) ((str_eq_iff m k).0 same) in
          ground (arith, rest, here, has_ref-add_ref r x (bucket m buckets), ap (has_ref x) at)
    ]

remove_one :
    (r : ℕ) (m : Str) (buckets : StrMap (List ℕ)) (k : Str) (x : ℕ)
    → has_ref x (bucket k (remove_from_bucket r m (StrMap.get m buckets) buckets))
      ≡ (not (r == x && str_eq m k) && has_ref x (bucket k buckets))
unfolding bucket remove_from_bucket
remove_one r m buckets k x = elim (Option-cases (StrMap.get m buckets)) [
  | inl gone ↦
      rw (gone, remove_from_bucket)
        (elim (Bool-cases (str_eq m k)) [
          | inr other ↦ ground arith
          | inl same ↦
              let at : StrMap.get k buckets ≡ none =
                ap (λ j. StrMap.get j buckets) (sym ((str_eq_iff m k).0 same)) ∙ gone in
              let empty : bucket k buckets ≡ [] = rw (at, bucket) refl in
              let nobody : has_ref x (bucket k buckets) ≡ false =
                ap (has_ref x) empty ∙ unfold has_ref any in refl in
              ground (arith, nobody)
        ])
  | inr (refs, there) ↦
      rw (there, remove_from_bucket)
        (let here = ap (has_ref x) (bucket-put_bucket m k (delete_ref r refs) buckets) in
          elim (Bool-cases (str_eq m k)) [
            | inr other ↦ ground (arith, here)
            | inl same ↦
                let at : StrMap.get k buckets ≡ some refs =
                  ap (λ j. StrMap.get j buckets) (sym ((str_eq_iff m k).0 same)) ∙ there in
                let is_refs : bucket k buckets ≡ refs = rw (at, bucket) refl in
                ground (arith, here, has_ref-delete_ref r x refs, ap (has_ref x) is_refs)
          ])
]

has_ref-remove_from_model_buckets :
    (r : ℕ) (models : StrSet) (buckets : StrMap (List ℕ)) (k : Str) (x : ℕ)
    → has_ref x (bucket k (remove_from_model_buckets r models buckets))
      ≡ (not (r == x && StrSet.has k models) && has_ref x (bucket k buckets))
unfolding remove_from_model_buckets StrSet.has
has_ref-remove_from_model_buckets r [] buckets k x = ground arith
has_ref-remove_from_model_buckets r (m ∷ models) buckets k x = ground (
  arith,
  has_ref-remove_from_model_buckets r models (remove_from_bucket r m (StrMap.get m buckets) buckets)
      k x,
  remove_one r m buckets k x,
)

-- A subscriber depends on a model.
abbrev pub depends_on : Str → List Dependency → Bool
depends_on m deps = StrSet.has m (map dep_model deps)

-- The bucket of a model holds the subscribers that depend on the model, and identities that are
-- in use are below `next_ref`.
pub record IsCoherent (b : Bus) : Type 0 where
  pub buckets :
      (m : Str) (r : ℕ)
      → has_ref r (bucket m b.subscribers_by_model)
        ≡ (has_ref r b.subscribers && depends_on m (b.deps_of r))
  pub fresh : (r : ℕ) → has_ref r b.subscribers ≡ true → r < b.next_ref

has-models_of :
    (m : Str) (deps : List Dependency) → StrSet.has m (models_of deps) ≡ depends_on m deps
unfolding models_of
has-models_of m deps = has-add_names m (map dep_model deps) [] ∙ (unfold StrSet.has in ground arith)

-- A subscription keeps the buckets of a coherent bus coherent.
pub subscribe-IsCoherent :
    (deps : List Dependency) (b : Bus) → IsCoherent b → IsCoherent (subscribe deps b)
unfolding subscribe allocate
subscribe-IsCoherent deps b c = record {
  buckets = λ m r. ground (
    arith,
    has_ref-add_to_model_buckets b.next_ref (models_of deps) b.subscribers_by_model m r,
    has_ref-add_ref b.next_ref r b.subscribers,
    has-models_of m deps,
    c.buckets m r,
    c.fresh r,
    ==_iff b.next_ref r,
    ==_iff r b.next_ref,
  );
  fresh = λ r h.
      ground (arith, has_ref-add_ref b.next_ref r b.subscribers, c.fresh r, ==_iff b.next_ref r);
}

-- So does the end of one.
pub unsubscribe-IsCoherent : (r : ℕ) (b : Bus) → IsCoherent b → IsCoherent (unsubscribe r b)
unfolding unsubscribe
unsubscribe-IsCoherent r b c = record {
  buckets = λ m x. elim (Bool-cases (r == x)) [
    | inr other ↦ ground (
      arith,
      has_ref-remove_from_model_buckets r (models_of (b.deps_of r)) b.subscribers_by_model m x,
      has_ref-delete_ref r x b.subscribers,
      c.buckets m x,
    )
    | inl same ↦
        let deps = ap (λ y. depends_on m (b.deps_of y)) ((==_iff r x).0 same) in
        ground (
          arith,
          has_ref-remove_from_model_buckets r (models_of (b.deps_of r)) b.subscribers_by_model m x,
          has_ref-delete_ref r x b.subscribers,
          c.buckets m x,
          has-models_of m (b.deps_of r),
          deps,
        )
  ];
  fresh = λ x h. ground (arith, has_ref-delete_ref r x b.subscribers, c.fresh x);
}
