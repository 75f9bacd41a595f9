-- ===== src/Ledger/Queries.antt =====
-- The methods of the ledger that read it, and the consumption of hydrated records.
use react_native_dblayer.Base.{
  ℕ, Bool, false, ◌&&◌, not, Option, none, some, List, [], ◌∷◌, leb, ◌==◌, if◌then◌else◌, keep,
  length,
}
use react_native_dblayer.Base.Str.{Str, str_eq}
use react_native_dblayer.Base.StrSet
use react_native_dblayer.Base.StrSet.{StrSet}
use react_native_dblayer.Base.StrMap
use react_native_dblayer.Base.StrMap.{StrMap}
use react_native_dblayer.Base.Value.{Value}
use react_native_dblayer.CompositeKey.{composite_key}
use react_native_dblayer.Ledger.Types.{
  OperationRecord, pending, failed, delivery_unknown, status_eq, is_patch, is_insert, is_open,
  non_empty,
}
use react_native_dblayer.Ledger.Transition.{Entry}
use react_native_dblayer.Ledger.State.{State, bucket_at}

unfoldable pub has_committed : Str → State → Bool
has_committed key s = StrSet.has key s.committed_keys

unfoldable pub has_pending : Str → State → Bool
has_pending key s = StrSet.has key s.pending_keys

unfoldable pub pending_operations : State → List Entry
pending_operations s = keep (λ e. status_eq e.operation.status pending) (StrMap.values s.operations)

unfoldable pub open_operations : State → List Entry
open_operations s = keep (λ e. is_open e.operation) (StrMap.values s.operations)

-- `openInsertsFor`
unfoldable pub open_inserts_for : Str → State → List Entry
open_inserts_for model s =
    keep
      (λ e. str_eq e.operation.model model && (is_insert e.operation.intent && is_open e.operation))
      (StrMap.values s.operations)

add_all : List Str → StrSet → StrSet
add_all [] held = held
add_all (id ∷ ids) held = add_all ids (StrSet.add id held)

held_ids : Str → List Entry → StrSet → StrSet
unfolding add_all
held_ids model [] held = held
held_ids model (e ∷ es) held = held_ids model es (
    if str_eq e.operation.model model && is_open e.operation
    then add_all e.operation.row_ids held
    else held)

-- `openRowIdsFor`
unfoldable pub open_row_ids_for : Str → State → StrSet
unfolding held_ids
open_row_ids_for model s = held_ids model (StrMap.values s.operations) []

-- `bucketFor`; an absent bucket reads as one with no records.
unfoldable pub bucket_for : Str → Str → State → List Entry
unfolding bucket_at
bucket_for model row_id s = bucket_at (composite_key (model ∷ row_id ∷ [])) s.ops_by_row_key

unfoldable pub pending_for_row : Str → Str → State → List Entry
pending_for_row model row_id s =
    keep (λ e. status_eq e.operation.status pending) (bucket_for model row_id s)

unfoldable pub failed_for_row : Str → Str → State → List Entry
failed_for_row model row_id s =
    keep (λ e. status_eq e.operation.status failed) (bucket_for model row_id s)

unfoldable pub delivery_unknown_for_row : Str → Str → State → List Entry
delivery_unknown_for_row model row_id s =
    keep (λ e. status_eq e.operation.status delivery_unknown) (bucket_for model row_id s)

latest : Option Entry → Entry → Option Entry
latest none e = some e
latest (some l) e = if leb l.operation.created_at e.operation.created_at then some e else some l

latest_failed : Str → List Entry → Option Entry → Option Entry
unfolding latest
latest_failed model [] found = found
latest_failed model (e ∷ es) found = latest_failed model es (
    if status_eq e.operation.status failed && str_eq e.operation.model model
    then latest found e
    else found)

-- `failedFor`: of equal times the later in the bucket.
unfoldable pub failed_for : Str → Str → State → Option Entry
unfolding latest_failed
failed_for model row_id s = latest_failed model (bucket_for model row_id s) none

-- The operation id given to leave one operation out; `undefined` leaves none out.
abbrev pub is_excluded : Option Str → Entry → Bool
is_excluded none e = false
is_excluded (some id) e = str_eq e.operation.operation_id id

unfoldable pub owns : Option Str → Entry → Bool
owns exclude e =
    status_eq e.operation.status pending
    && (is_patch e.operation.intent
        && (non_empty e.operation.patched_fields && not (is_excluded exclude e)))

abbrev pub fields_of : Entry → List Str
fields_of e = elim e.operation.patched_fields [ none ↦ [] | some fields ↦ fields ]

unfoldable pub collect_fields : Option Str → List Entry → StrSet → StrSet
unfolding add_all owns
collect_fields exclude [] owned = owned
collect_fields exclude (e ∷ es) owned =
    collect_fields exclude es (if owns exclude e then add_all (fields_of e) owned else owned)

-- `ownedFields`, with its early return where no pending patch is counted.
unfoldable pub owned_fields : Str → Str → Option Str → State → StrSet
unfolding collect_fields
owned_fields model row_id exclude s =
    if s.pending_patch_count == 0 then [] else collect_fields exclude (bucket_for model row_id s) []

patched_value : Str → Entry → Option Value
patched_value name e = elim e.operation.patched_values [
  | none ↦ none
  | some values ↦ StrMap.get name values
]

or_else : Option Value → Option Value → Option Value
or_else none found = found
or_else (some v) found = some v

latest_value : Str → Option Str → List Entry → Option Value → Option Value
unfolding patched_value or_else
latest_value name exclude [] found = found
latest_value name exclude (e ∷ es) found = latest_value name exclude es (
    if status_eq e.operation.status pending
      && (is_patch e.operation.intent && not (is_excluded exclude e))
    then or_else (patched_value name e) found
    else found)

-- `latestPendingValue`; `none` is `{ found: false }`.
unfoldable pub latest_pending_value : Str → Str → Str → Option Str → State → Option Value
unfolding latest_value
latest_pending_value model row_id name exclude s =
    if s.pending_patch_count == 0
    then none
    else latest_value name exclude (bucket_for model row_id s) none

taken : (OperationRecord → Bool) → Option Entry → Option Entry
taken accepts none = none
taken accepts (some e) =
    if status_eq e.operation.status pending && accepts e.operation then some e else none

take_marked : (OperationRecord → Bool) → List Str → StrMap Entry → StrSet → StrSet × List Entry
unfolding taken
take_marked accepts [] operations marks = (marks, [])
take_marked accepts (id ∷ ids) operations marks = elim (taken accepts (StrMap.get id operations)) [
  | none ↦ take_marked accepts ids operations marks
  | some e ↦
      let (marks', rest) = take_marked accepts ids operations (StrSet.delete id marks) in
      (marks', e ∷ rest)
]

-- `takeHydratedPending`
unfoldable pub take_hydrated_pending : (OperationRecord → Bool) → State → State × List Entry
unfolding take_marked
take_hydrated_pending accepts s =
    let (marks, found) =
      take_marked accepts s.hydrated_pending_ids s.operations s.hydrated_pending_ids in
    (record s { hydrated_pending_ids = marks }, found)

-- `residentRowBuckets`
unfoldable pub resident_row_buckets : State → ℕ
resident_row_buckets s = length (StrMap.keys s.ops_by_row_key)
