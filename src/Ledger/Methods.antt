-- ===== src/Ledger/Methods.antt =====
-- The methods of the ledger that change its state.
use react_native_dblayer.Base.{
  ℕ, suc, ◌+◌, ◌*◌, Bool, true, false, ◌&&◌, ◌||◌, not, Option, none, some, List, [], ◌∷◌, ◌++◌,
  ltb, if◌then◌else◌,
}
use react_native_dblayer.Base.Str.{Str}
use react_native_dblayer.Base.StrSet
use react_native_dblayer.Base.StrSet.{StrSet}
use react_native_dblayer.Base.StrMap
use react_native_dblayer.Base.StrMap.{StrMap}
use react_native_dblayer.Ledger.Types.{
  OperationStatus, OperationRecord, OperationTransition, pending, failed, begin, close, remove,
  status_eq, is_open, is_retained_once,
}
use react_native_dblayer.Ledger.Transition.{Entry, Applied, apply_transition, closed_record}
use react_native_dblayer.Ledger.State.{
  State, LedgerWrite, index_record, unindex_record, rebuild_indexes, entries_for, persist,
}

-- `begin`
unfoldable pub begin_operation : OperationRecord → State → State
begin_operation operation s =
    let e : Entry = record {
      ref = s.next_ref;
      operation = record operation { status = pending };
    } in
    persist (
      index_record e (record s {
        operations = StrMap.set operation.operation_id e s.operations;
        next_ref = suc s.next_ref;
      }))

close_indexed : Str → Entry → Option State → Option State
close_indexed id e none = none
close_indexed id e (some s) = some (
    persist (
      index_record e
        (record s { operations = StrMap.set id e s.operations; next_ref = suc s.next_ref })))

close_pending : Str → OperationStatus → Entry → State → Option State
unfolding close_indexed
close_pending id status previous s =
    close_indexed id
      (record { ref = s.next_ref; operation = closed_record status previous.operation })
      (unindex_record previous
        (record s { hydrated_pending_ids = StrSet.delete id s.hydrated_pending_ids }))

-- `close`
unfoldable pub close_operation : Str → OperationStatus → State → Option State
unfolding close_pending
close_operation id status s = elim (StrMap.get id s.operations) [
  | none ↦ some (record s { unknown_acks = suc s.unknown_acks })
  | some previous ↦
      if status_eq previous.operation.status pending
      then close_pending id status previous s
      else some (record s { unknown_acks = suc s.unknown_acks })
]

-- `clearFailed`
unfoldable pub clear_failed : Str → State → State
clear_failed id s = elim (StrMap.get id s.operations) [
  | none ↦ s
  | some e ↦
      if status_eq e.operation.status failed
      then persist (rebuild_indexes (record s { operations = StrMap.delete id s.operations }))
      else s
]

-- `reopen`, with the record that it returns.
unfoldable pub reopen : Str → State → State × Option OperationRecord
reopen id s = elim (StrMap.get id s.operations) [
  | none ↦ (s, none)
  | some e ↦
      if status_eq e.operation.status failed
      then (
        persist (
            rebuild_indexes (record s {
              operations =
                  StrMap.set id
                    (record {
                      ref = s.next_ref;
                      operation = record e.operation { status = pending };
                    })
                    s.operations;
              next_ref = suc s.next_ref;
            })),
        some (record e.operation { status = pending }),
      )
      else (s, none)
]

-- `remove`
unfoldable pub remove_operation : Str → State → State
remove_operation id s = elim (StrMap.get id s.operations) [
  | none ↦ s
  | some e ↦ persist (
      rebuild_indexes (record s {
        hydrated_pending_ids = StrSet.delete id s.hydrated_pending_ids;
        operations = StrMap.delete id s.operations;
      }))
]

abbrev pub closed_ttl_ms : ℕ
closed_ttl_ms = 60 * 60 * 1000

-- A closed record, not kept for its once key, that is older than the limit.
unfoldable pub is_prunable : ℕ → OperationRecord → Bool
is_prunable now r =
    not (is_open r) && (not (is_retained_once r) && ltb (r.created_at + closed_ttl_ms) now)

-- The loop of `prune`: what stays, and how many records went.
unfoldable pub prune_records : ℕ → StrMap Entry → StrMap Entry × ℕ
prune_records now [] = ([], 0)
prune_records now ((id, e) ∷ m) =
    let (kept, pruned) = prune_records now m in
    if is_prunable now e.operation then (kept, suc pruned) else ((id, e) ∷ kept, pruned)

-- `prune`. It leaves storage as it is: the next write saves the pruned map.
unfoldable pub prune : ℕ → State → State × ℕ
unfolding prune_records
prune now s =
    let (kept, pruned) = prune_records now s.operations in
    if ltb 0 pruned then (rebuild_indexes (record s { operations = kept }), pruned) else (s, pruned)

unfoldable pub transition_id : OperationTransition → Str
transition_id (begin operation) = operation.operation_id
transition_id (close id status) = id
transition_id (remove id expected) = id

is_begin : OperationTransition → Bool
is_begin (begin operation) = true
is_begin _ = false

is_present : Option Entry → Bool
is_present none = false
is_present (some e) = true

-- A transition that did something takes the resume mark off its operation.
unfoldable pub unmark_hydrated : OperationTransition → Applied → State → State
unfolding transition_id is_begin is_present
unmark_hydrated t result s =
    if not (is_begin t) && (is_present result.next || is_present result.previous)
    then record s { hydrated_pending_ids = StrSet.delete (transition_id t) s.hydrated_pending_ids }
    else s

-- The index gets the new record, or the old one back where nothing happened.
unfoldable pub reindex : Option Entry → Option Entry → Option Entry → State → State
reindex before previous (some next) s = index_record next s
reindex (some e) none none s = index_record e s
reindex (some e) (some p) none s = s
reindex none previous none s = s

notification : Option Entry → Option Entry → List OperationRecord
notification (some next) previous = next.operation ∷ []
notification none (some previous) = previous.operation ∷ []
notification none none = []

unfoldable pub take_before : Option Entry → State → Option State
take_before none s = some s
take_before (some before) s = unindex_record before s

-- One round of `applyTransitions`, after the old record has left the indexes.
unfoldable pub land : OperationTransition → Option Entry → State → State × List OperationRecord
unfolding unmark_hydrated reindex notification
land t before s =
    let result = apply_transition s.next_ref s.operations s.committed_keys t in
    let s' : State = record s {
      operations = result.records;
      committed_keys = result.once_keys;
      next_ref = suc s.next_ref;
    } in
    (
      reindex before result.previous result.next (unmark_hydrated t result s'),
      notification result.next result.previous,
    )

unfoldable pub apply_one : OperationTransition → State → Option (State × List OperationRecord)
unfolding take_before land transition_id
apply_one t s =
    let before = StrMap.get (transition_id t) s.operations in
    elim (take_before before s) [ none ↦ none | some s' ↦ some (land t before s') ]

-- `applyTransitions`
unfoldable pub apply_transitions :
    List OperationTransition → State → Option (State × List OperationRecord)
apply_transitions [] s = some (s, [])
apply_transitions (t ∷ ts) s = elim (apply_one t s) [
  | none ↦ none
  | some (s', notes) ↦ elim (apply_transitions ts s') [
    | none ↦ none
    | some (s'', more) ↦ some (s'', notes ++ more)
  ]
]

-- `persistEntries`
unfoldable pub persist_entries : State → LedgerWrite
persist_entries s = entries_for s.stored s.operations s.committed_keys

unfoldable pub project : List OperationTransition → ℕ → StrMap Entry → StrSet → Applied
project [] ref records once_keys = record {
  records = records;
  once_keys = once_keys;
  previous = none;
  next = none;
}
project (t ∷ ts) ref records once_keys =
    let result = apply_transition ref records once_keys t in
    project ts (suc ref) result.records result.once_keys

-- `prepareTransitions`: the same changes on copies of the maps, and what would be written.
unfoldable pub prepare_transitions : List OperationTransition → State → LedgerWrite
unfolding project
prepare_transitions ts s =
    let result = project ts s.next_ref s.operations s.committed_keys in
    entries_for s.stored result.records result.once_keys
