-- ===== src/Ledger/Transition.antt =====
-- `applyTransition` of src/core/planes/operationState.ts: one ledger change on a record map.
use react_native_dblayer.Base.{ℕ, Bool, true, false, ◌&&◌, not, Option, none, some, if◌then◌else◌}
use react_native_dblayer.Base.Str.{Str}
use react_native_dblayer.Base.StrSet
use react_native_dblayer.Base.StrSet.{StrSet}
use react_native_dblayer.Base.StrMap
use react_native_dblayer.Base.StrMap.{StrMap}
use react_native_dblayer.Ledger.Types.{
  OperationStatus, OperationRecord, OperationTransition, pending, committed, begin, close, remove,
  status_eq, is_true, truthy,
}

-- A record object. Sets of records tell objects apart by identity, which `ref` stands for.
pub record Entry : Type 0 where
  pub ref : ℕ
  pub operation : OperationRecord

pub record Applied : Type 0 where
  pub records : StrMap Entry
  pub once_keys : StrSet
  pub previous : Option Entry
  pub next : Option Entry

-- The record that a close leaves: its key stays only where a `once` operation commits.
unfoldable pub closed_record : OperationStatus → OperationRecord → OperationRecord
closed_record status r = record r {
  status = status;
  idempotency_key =
      if status_eq status committed && is_true r.once then r.idempotency_key else none;
}

unfoldable pub add_once_key : Bool → Option Str → StrSet → StrSet
add_once_key true (some key) keys = StrSet.add key keys
add_once_key _ _ keys = keys

unfoldable pub close_found : ℕ → OperationStatus → Str → StrMap Entry → StrSet → Entry → Applied
unfolding closed_record add_once_key
close_found ref status id records once_keys previous =
    let next : Entry = record { ref = ref; operation = closed_record status previous.operation } in
    if status_eq previous.operation.status pending
    then record {
      records = StrMap.set id next records;
      once_keys =
          add_once_key (status_eq status committed && is_true previous.operation.once)
            (truthy next.operation.idempotency_key) once_keys;
      previous = some previous;
      next = some next;
    }
    else record { records = records; once_keys = once_keys; previous = none; next = none }

unfoldable pub mismatches : Option OperationStatus → OperationStatus → Bool
mismatches none status = false
mismatches (some expected) status = not (status_eq status expected)

unfoldable pub remove_found : Option OperationStatus → Str → StrMap Entry → StrSet → Entry → Applied
unfolding mismatches
remove_found expected id records once_keys previous =
    if mismatches expected previous.operation.status
    then record { records = records; once_keys = once_keys; previous = none; next = none }
    else record {
      records = StrMap.delete id records;
      once_keys = once_keys;
      previous = some previous;
      next = none;
    }

-- `ref` is the identity of the record object that the change may create.
unfoldable pub apply_transition : ℕ → StrMap Entry → StrSet → OperationTransition → Applied
unfolding close_found remove_found
apply_transition ref records once_keys (begin operation) =
    let next : Entry = record { ref = ref; operation = record operation { status = pending } } in
    record {
      records = StrMap.set operation.operation_id next records;
      once_keys = once_keys;
      previous = StrMap.get operation.operation_id records;
      next = some next;
    }
apply_transition ref records once_keys (close id status) = elim (StrMap.get id records) [
  | none ↦ record { records = records; once_keys = once_keys; previous = none; next = none }
  | some previous ↦ close_found ref status id records once_keys previous
]
apply_transition ref records once_keys (remove id expected) = elim (StrMap.get id records) [
  | none ↦ record { records = records; once_keys = once_keys; previous = none; next = none }
  | some previous ↦ remove_found expected id records once_keys previous
]
