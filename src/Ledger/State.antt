-- ===== src/Ledger/State.antt =====
-- The live ledger of `createOperationState`: its maps, their upkeep, and the methods that change it.
-- `none` is the TypeError of a deletion from a bucket that is not there.
use react_native_dblayer.Base.{
  ℕ, ◌+◌, ◌-◌, Option, none, some, List, [], ◌∷◌, ◌++◌, map, ◌==◌, if◌then◌else◌, any,
}
use react_native_dblayer.Base.Str.{Str, str_lt}
use react_native_dblayer.Base.StrSet
use react_native_dblayer.Base.StrSet.{StrSet}
use react_native_dblayer.Base.StrMap
use react_native_dblayer.Base.StrMap.{StrMap}
use react_native_dblayer.CompositeKey.{composite_key}
use react_native_dblayer.Ledger.Types.{
  OperationRecord, pending, status_eq, truthy, is_pending_patch_owner, is_retained_once,
}
use react_native_dblayer.Ledger.Transition.{Entry}

-- `PersistedOperationState`, below its record version.
pub record Saved : Type 0 where
  pub operations : StrMap OperationRecord
  pub committed_keys : List Str

-- `stored` is what storage holds under the ledger's key; `next_ref` is no record's identity yet;
-- `unknown_acks` counts the calls of `noteUnknownOperationAck`.
pub record State : Type 0 where
  pub operations : StrMap Entry
  pub committed_keys : StrSet
  pub pending_keys : StrSet
  pub hydrated_pending_ids : StrSet
  pub pending_patch_count : ℕ
  pub ops_by_row_key : StrMap (List Entry)
  pub next_ref : ℕ
  pub stored : Option Saved
  pub unknown_acks : ℕ

unfoldable pub row_keys : OperationRecord → List Str
row_keys r = map (λ row_id. composite_key (r.model ∷ row_id ∷ [])) r.row_ids

-- `Set.add` and `Set.delete` on a set of record objects.
unfoldable pub bucket_add : Entry → List Entry → List Entry
bucket_add e bucket = if any (λ x. x.ref == e.ref) bucket then bucket else bucket ++ e ∷ []

unfoldable pub bucket_delete : Entry → List Entry → List Entry
bucket_delete e [] = []
bucket_delete e (x ∷ bucket) =
    let rest = bucket_delete e bucket in if x.ref == e.ref then rest else x ∷ rest

unfoldable pub bucket_at : Str → StrMap (List Entry) → List Entry
bucket_at key m = elim (StrMap.get key m) [ none ↦ [] | some bucket ↦ bucket ]

-- `indexRecordRows`
unfoldable pub index_rows : Entry → List Str → StrMap (List Entry) → StrMap (List Entry)
unfolding bucket_at
index_rows e [] m = m
index_rows e (key ∷ keys) m = index_rows e keys (StrMap.set key (bucket_add e (bucket_at key m)) m)

without_empty : Str → List Entry → StrMap (List Entry) → StrMap (List Entry)
without_empty key [] m = StrMap.delete key m
without_empty key (x ∷ bucket) m = StrMap.set key (x ∷ bucket) m

-- `unindexRecordRows`
unfoldable pub unindex_rows : Entry → List Str → StrMap (List Entry) → Option (StrMap (List Entry))
unfolding without_empty
unindex_rows e [] m = some m
unindex_rows e (key ∷ keys) m = elim (StrMap.get key m) [
  | none ↦ none
  | some bucket ↦ unindex_rows e keys (without_empty key (bucket_delete e bucket) m)
]

index_pending_key : OperationRecord → Option Str → StrSet → StrSet
index_pending_key r none keys = keys
index_pending_key r (some key) keys =
    if status_eq r.status pending then StrSet.add key keys else StrSet.delete key keys

unfoldable pub index_committed_key : OperationRecord → Option Str → StrSet → StrSet
index_committed_key r none keys = keys
index_committed_key r (some key) keys = if is_retained_once r then StrSet.add key keys else keys

-- `indexRecord`, with `indexOperation` in its first two fields.
unfoldable pub index_record : Entry → State → State
unfolding index_pending_key index_committed_key
index_record e s = record s {
  pending_keys = index_pending_key e.operation (truthy e.operation.idempotency_key) s.pending_keys;
  committed_keys =
      index_committed_key e.operation (truthy e.operation.idempotency_key) s.committed_keys;
  ops_by_row_key = index_rows e (row_keys e.operation) s.ops_by_row_key;
  pending_patch_count =
      if is_pending_patch_owner e.operation
      then s.pending_patch_count + 1
      else s.pending_patch_count;
}

release_pending_key : OperationRecord → Option Str → StrSet → StrSet
release_pending_key r none keys = keys
release_pending_key r (some key) keys =
    if status_eq r.status pending then StrSet.delete key keys else keys

-- `unindexRecord`. The count falls by one only for a record that was counted.
unfoldable pub unindex_record : Entry → State → Option State
unfolding release_pending_key
unindex_record e s = elim (unindex_rows e (row_keys e.operation) s.ops_by_row_key) [
  | none ↦ none
  | some m ↦ some (record s {
    pending_keys =
        release_pending_key e.operation (truthy e.operation.idempotency_key) s.pending_keys;
    ops_by_row_key = m;
    pending_patch_count =
        if is_pending_patch_owner e.operation
        then s.pending_patch_count - 1
        else s.pending_patch_count;
  })
]

unfoldable pub index_all : List Entry → State → State
index_all [] s = s
index_all (e ∷ es) s = index_all es (index_record e s)

-- `rebuildIndexes`
unfoldable pub rebuild_indexes : State → State
rebuild_indexes s =
    index_all (StrMap.values s.operations)
      (record s { pending_keys = []; ops_by_row_key = []; pending_patch_count = 0 })

insert_sorted : Str → List Str → List Str
insert_sorted k [] = k ∷ []
insert_sorted k (j ∷ l) = let rest = insert_sorted k l in if str_lt j k then j ∷ rest else k ∷ j ∷ l

-- `[...onceKeys].sort()`
unfoldable pub sorted_keys : StrSet → List Str
unfolding insert_sorted
sorted_keys [] = []
sorted_keys (k ∷ l) = insert_sorted k (sorted_keys l)

unfoldable pub strip : StrMap Entry → StrMap OperationRecord
strip [] = []
strip ((id, e) ∷ m) = (id, e.operation) ∷ strip m

-- What a write of the ledger's key does: nothing, a removal, or a new value.
pub data LedgerWrite : Type 0 where
  nothing erase : LedgerWrite
  save : Saved → LedgerWrite

-- `entriesFor`
unfoldable pub entries_for : Option Saved → StrMap Entry → StrSet → LedgerWrite
entries_for none [] [] = nothing
entries_for (some old) [] [] = erase
entries_for stored ((id, e) ∷ records) once_keys =
    save (record { operations = strip ((id, e) ∷ records); committed_keys = sorted_keys once_keys })
entries_for stored [] (k ∷ keys) =
    save (record { operations = []; committed_keys = sorted_keys (k ∷ keys) })

-- `storage.set` of the write.
unfoldable pub written : LedgerWrite → Option Saved → Option Saved
written nothing stored = stored
written erase stored = none
written (save v) stored = some v

unfoldable pub persist : State → State
unfolding entries_for written
persist s = record s {
  stored = written (entries_for s.stored s.operations s.committed_keys) s.stored;
}
