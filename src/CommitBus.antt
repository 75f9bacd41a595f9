-- ===== src/CommitBus.antt =====
-- src/core/apply/commitBus.ts and its types: dependencies, and which subscribers a batch notifies.
pub mod Coherent
pub mod Publish
pub mod Once
use react_native_dblayer.Base.{
  ℕ, suc, ◌+◌, Bool, true, false, ◌&&◌, ◌||◌, not, Option, none, some, List, [], ◌∷◌, ◌++◌, map,
  ◌==◌, if◌then◌else◌, any, keep, length,
}
use react_native_dblayer.Base.Str.{Str, str_eq}
use react_native_dblayer.Base.StrSet
use react_native_dblayer.Base.StrSet.{StrSet}
use react_native_dblayer.Base.StrMap
use react_native_dblayer.Base.StrMap.{StrMap}

pub data RowChangeKind : Type 0 where
  upsert destroy : RowChangeKind

-- `fields` is `none` where the change is of the whole row.
pub record RowChange : Type 0 where
  pub model : Str
  pub id : Str
  pub fields : Option (List Str)
  pub kind : Option RowChangeKind
  pub replaced_by : Option Str

pub record ScopeChange : Type 0 where
  pub model : Str
  pub scope_key : Str

pub record PendingChange : Type 0 where
  pub model : Str
  pub id : Str

-- An absent `pending` is the empty list.
pub record CommitBatch : Type 0 where
  pub rows : List RowChange
  pub scopes : List ScopeChange
  pub pending : List PendingChange

pub data Dependency : Type 0 where
  row : Str → Str → Option (List Str) → Dependency
  scope : Str → Str → Dependency
  model : Str → Dependency
  pending : Str → Str → Dependency

abbrev pub dep_model : Dependency → Str
dep_model (row m id fields) = m
dep_model (scope m key) = m
dep_model (model m) = m
dep_model (pending m id) = m

fields_match : Option (List Str) → Option (List Str) → Bool
fields_match none changed = true
fields_match (some fields) none = true
fields_match (some fields) (some changed) = any (λ f. StrSet.has f fields) changed

-- `rowMatches`
unfoldable pub row_matches : Str → Str → Option (List Str) → RowChange → Bool
unfolding fields_match
row_matches m id fields c = str_eq m c.model && (str_eq id c.id && fields_match fields c.fields)

-- `depMatches`
unfoldable pub dep_matches : CommitBatch → Dependency → Bool
dep_matches batch (model m) =
    any (λ c. str_eq c.model m) batch.rows || any (λ c. str_eq c.model m) batch.scopes
dep_matches batch (scope m key) = any (λ c. str_eq c.model m && str_eq c.scope_key key) batch.scopes
dep_matches batch (pending m id) = any (λ c. str_eq c.model m && str_eq c.id id) batch.pending
dep_matches batch (row m id fields) = any (λ c. row_matches m id fields c) batch.rows

-- `all_subscribers` holds listener functions by their identity.
-- A subscriber is an object whose dependencies do not change: `deps_of` gives them by its
-- identity, which is below `next_ref`. The sets hold identities.
pub record Bus : Type 0 where
  pub deps_of : ℕ → List Dependency
  pub next_ref : ℕ
  pub subscribers : List ℕ
  pub retained : List ℕ
  pub subscribers_by_model : StrMap (List ℕ)
  pub all_subscribers : List ℕ
  pub sequence : ℕ

unfoldable pub has_ref : ℕ → List ℕ → Bool
has_ref r refs = any (λ x. x == r) refs

unfoldable pub add_ref : ℕ → List ℕ → List ℕ
add_ref r refs = if has_ref r refs then refs else refs ++ r ∷ []

unfoldable pub delete_ref : ℕ → List ℕ → List ℕ
delete_ref r refs = keep (λ x. not (x == r)) refs

unfoldable pub bucket : Str → StrMap (List ℕ) → List ℕ
bucket m buckets = elim (StrMap.get m buckets) [ none ↦ [] | some refs ↦ refs ]

unfoldable pub add_names : List Str → StrSet → StrSet
add_names [] names = names
add_names (m ∷ ms) names = add_names ms (StrSet.add m names)

-- `modelsOf`
unfoldable pub models_of : List Dependency → StrSet
models_of deps = add_names (map dep_model deps) []

-- `addToModelBuckets`
unfoldable pub add_to_model_buckets : ℕ → StrSet → StrMap (List ℕ) → StrMap (List ℕ)
add_to_model_buckets r [] buckets = buckets
add_to_model_buckets r (m ∷ models) buckets =
    add_to_model_buckets r models (StrMap.set m (add_ref r (bucket m buckets)) buckets)

unfoldable pub put_bucket : Str → List ℕ → StrMap (List ℕ) → StrMap (List ℕ)
put_bucket m [] buckets = StrMap.delete m buckets
put_bucket m (r ∷ refs) buckets = StrMap.set m (r ∷ refs) buckets

unfoldable pub remove_from_bucket : ℕ → Str → Option (List ℕ) → StrMap (List ℕ) → StrMap (List ℕ)
remove_from_bucket r m none buckets = buckets
remove_from_bucket r m (some refs) buckets = put_bucket m (delete_ref r refs) buckets

-- `removeFromModelBuckets`
unfoldable pub remove_from_model_buckets : ℕ → StrSet → StrMap (List ℕ) → StrMap (List ℕ)
remove_from_model_buckets r [] buckets = buckets
remove_from_model_buckets r (m ∷ models) buckets =
    remove_from_model_buckets r models (remove_from_bucket r m (StrMap.get m buckets) buckets)

unfoldable pub allocate : List Dependency → Bus → Bus
allocate deps b = record b {
  deps_of = λ r. if r == b.next_ref then deps else b.deps_of r;
  next_ref = suc b.next_ref;
}

-- `subscribe`; the new subscriber is `next_ref`.
unfoldable pub subscribe : List Dependency → Bus → Bus
unfolding allocate
subscribe deps b = record (allocate deps b) {
  subscribers = add_ref b.next_ref b.subscribers;
  subscribers_by_model = add_to_model_buckets b.next_ref (models_of deps) b.subscribers_by_model;
}

-- `unsubscribe` of the subscription.
unfoldable pub unsubscribe : ℕ → Bus → Bus
unsubscribe r b = record b {
  subscribers = delete_ref r b.subscribers;
  subscribers_by_model =
      remove_from_model_buckets r (models_of (b.deps_of r)) b.subscribers_by_model;
}

-- `retain`, and its release.
unfoldable pub retain : List Dependency → Bus → Bus
retain deps b = record (allocate deps b) { retained = add_ref b.next_ref b.retained }

unfoldable pub release : ℕ → Bus → Bus
release r b = record b { retained = delete_ref r b.retained }

-- `subscribeAll` of a listener, and its release.
unfoldable pub subscribe_all : ℕ → Bus → Bus
subscribe_all r b = record b { all_subscribers = add_ref r b.all_subscribers }

unfoldable pub unsubscribe_all : ℕ → Bus → Bus
unsubscribe_all r b = record b { all_subscribers = delete_ref r b.all_subscribers }

all_deps : (ℕ → List Dependency) → List ℕ → List Dependency
all_deps deps_of [] = []
all_deps deps_of (r ∷ refs) = deps_of r ++ all_deps deps_of refs

-- `activeDependencies`
unfoldable pub active_dependencies : Bus → List Dependency
unfolding all_deps
active_dependencies b = all_deps b.deps_of (b.subscribers ++ b.retained)

-- The models of a batch, in its order, each once.
unfoldable pub batch_models : CommitBatch → StrSet
batch_models batch =
    add_names
      (map (λ c. c.model) batch.rows
        ++ (map (λ c. c.model) batch.scopes ++ map (λ c. c.model) batch.pending))
      []

unfoldable pub add_refs : List ℕ → List ℕ → List ℕ
add_refs [] found = found
add_refs (r ∷ refs) found = add_refs refs (add_ref r found)

unfoldable pub candidates_from : StrSet → StrMap (List ℕ) → List ℕ → List ℕ
candidates_from [] buckets found = found
candidates_from (m ∷ models) buckets found =
    candidates_from models buckets (add_refs (bucket m buckets) found)

abbrev is_empty {ℓ} : {A : Type ℓ} → List A → Bool
is_empty [] = true
is_empty (x ∷ xs) = false

unfoldable pub is_empty_batch : CommitBatch → Bool
is_empty_batch batch = is_empty batch.rows && (is_empty batch.scopes && is_empty batch.pending)

-- What a publish returns: the bus, the listeners of all batches that are called, and the
-- subscribers that are notified after them, each list in the order of the calls.
pub record Published : Type 0 where
  pub bus : Bus
  pub listeners : List ℕ
  pub notified : List ℕ

-- `publish`
unfoldable pub publish : CommitBatch → Bus → Published
publish batch b =
    if is_empty_batch batch then record { bus = b; listeners = []; notified = [] } else record {
      bus = record b { sequence = suc b.sequence };
      listeners = b.all_subscribers;
      notified =
          keep (λ r. any (dep_matches batch) (b.deps_of r))
            (candidates_from (batch_models batch) b.subscribers_by_model []);
    }

-- `publishAll`
unfoldable pub publish_all : Bus → Published
publish_all b = record {
  bus = record b { sequence = suc b.sequence };
  listeners = [];
  notified = b.subscribers;
}

-- `subscriberCount`
unfoldable pub subscriber_count : Bus → ℕ
subscriber_count b = length b.subscribers
