-- ===== src/Ledger/Types.antt =====
-- src/types/core.planes.operationState.types.ts: operation records and ledger transitions.
use react_native_dblayer.Base.{ℕ, Bool, true, false, ◌&&◌, ◌||◌, Option, none, some, List, [], ◌∷◌}
use react_native_dblayer.Base.Str.{Str}
use react_native_dblayer.Base.StrMap.{StrMap}
use react_native_dblayer.Base.Value.{Value}

pub data OperationStatus : Type 0 where
  pending committed rolledback failed delivery_unknown : OperationStatus

pub data OperationIntent : Type 0 where
  insert patch destroy : OperationIntent

pub data ActionMode : Type 0 where
  request durable : ActionMode

pub record Membership : Type 0 where
  pub id : Str
  pub scope_key : Str
  pub order_key : Str

-- An absent optional field is `none`.
pub record OperationRecord : Type 0 where
  pub operation_id : Str
  pub action_key : Str
  pub action_mode : ActionMode
  pub model : Str
  pub temp_ids : List Str
  pub row_ids : List Str
  pub intent : OperationIntent
  pub status : OperationStatus
  pub idempotency_key : Option Str
  pub once : Option Bool
  pub patched_fields : Option (List Str)
  pub patched_values : Option (StrMap Value)
  pub input : Option Value
  pub rollback_row : Option (StrMap Value)
  pub rollback_memberships : Option (List Membership)
  pub created_at : ℕ

-- A `begin` carries a record without a status, and its `status` is not read. A `close` never
-- carries `pending`.
pub data OperationTransition : Type 0 where
  begin : OperationRecord → OperationTransition
  close : Str → OperationStatus → OperationTransition
  remove : Str → Option OperationStatus → OperationTransition

abbrev pub status_eq : OperationStatus → OperationStatus → Bool
status_eq pending pending = true
status_eq committed committed = true
status_eq rolledback rolledback = true
status_eq failed failed = true
status_eq delivery_unknown delivery_unknown = true
status_eq _ _ = false

abbrev pub is_patch : OperationIntent → Bool
is_patch patch = true
is_patch _ = false

abbrev pub is_insert : OperationIntent → Bool
is_insert insert = true
is_insert _ = false

-- `=== true` on an optional boolean.
abbrev pub is_true : Option Bool → Bool
is_true (some true) = true
is_true _ = false

-- A key that is there and not the empty string, which is falsy.
abbrev pub truthy : Option Str → Option Str
truthy none = none
truthy (some []) = none
truthy (some (c ∷ s)) = some (c ∷ s)

abbrev pub non_empty : Option (List Str) → Bool
non_empty none = false
non_empty (some []) = false
non_empty (some (f ∷ fs)) = true

-- A pending patch that owns at least one field: `isPendingPatchOwner`.
unfoldable pub is_pending_patch_owner : OperationRecord → Bool
is_pending_patch_owner r =
    status_eq r.status pending && (is_patch r.intent && non_empty r.patched_fields)

-- A committed operation that keeps its key.
unfoldable pub is_retained_once : OperationRecord → Bool
is_retained_once r = status_eq r.status committed && is_true r.once

-- Unresolved: pending, failed or of unknown delivery.
unfoldable pub is_open : OperationRecord → Bool
is_open r =
    status_eq r.status pending || (status_eq r.status failed || status_eq r.status delivery_unknown)
