-- ===== src/Envelope/Types.antt =====
-- The write intents and the applied operations: src/types/core.apply.ops.types.ts, with the rows
-- of src/types/core.relations.types.ts that the compiler of envelopes and the relations share.
use react_native_dblayer.Base.{ℕ, Bool, Option, List}
use react_native_dblayer.Base.Str.{Str}
use react_native_dblayer.Base.Value.{ℤ, Value}
use react_native_dblayer.Where.Filter.{Row}
use react_native_dblayer.Ledger.Types.{OperationTransition}
use react_native_dblayer.Scope.Entry.{ScopeEntry, ScopeIndexValue, IncomingScopeRow}

pub data RowOrigin : Type 0 where
  event replace : RowOrigin

pub record Upsert : Type 0 where
  pub model : Str
  pub rows : List Value
  pub origin : Option RowOrigin
  pub merge_base : Option Value
  pub operation_id : Option Str
  pub base_revision : Option ℕ

pub record Patch : Type 0 where
  pub model : Str
  pub id : Str
  pub patch : Row
  pub remove : Option (List Str)
  pub operation_id : Option Str
  pub base_revision : Option ℕ

-- `is_replace`: the origin is `replace`.
pub record Destroy : Type 0 where
  pub model : Str
  pub ids : List Str
  pub tombstone : Option Bool
  pub is_replace : Bool
  pub replaced_by : Option Str
  pub operation_transitions : List OperationTransition
  pub base_revision : Option ℕ

pub record ScopeWrite : Type 0 where
  pub model : Str
  pub scope_key : Str
  pub next : ScopeIndexValue

pub record ScopeDelta : Type 0 where
  pub model : Str
  pub scope_key : Str
  pub append : List IncomingScopeRow
  pub detach : List Str

pub record CounterRef : Type 0 where
  pub model : Str
  pub id : Str
  pub field : Str

pub data WriteOp : Type 0 where
  upsert : Upsert → WriteOp
  patch : Patch → WriteOp
  destroy : Destroy → WriteOp
  scope : ScopeWrite → WriteOp
  scope_delta : ScopeDelta → WriteOp
  counter : CounterRef → ℤ → WriteOp

pub record AppliedUpsert : Type 0 where
  pub model : Str
  pub rows : List Row
  pub is_replace : Bool

pub record AppliedDestroy : Type 0 where
  pub model : Str
  pub ids : List Str
  pub tombstone : Option Bool
  pub is_replace : Bool
  pub replaced_by : Option Str

-- An order key is `none` where the code asserts a placement that is not there.
pub record AppliedScopeDelta : Type 0 where
  pub model : Str
  pub scope_key : Str
  pub append : List IncomingScopeRow
  pub detach : List Str

pub data AppliedOp : Type 0 where
  upsert : AppliedUpsert → AppliedOp
  destroy : AppliedDestroy → AppliedOp
  scope : ScopeWrite → AppliedOp
  scope_delta : AppliedScopeDelta → AppliedOp

pub record AcceptedRow : Type 0 where
  pub model : Str
  pub id : Str
  pub before : Option Row
  pub after : Row
  pub origin : Option RowOrigin
  pub changed_fields : Option (List Str)

pub record DestroyedRow : Type 0 where
  pub model : Str
  pub id : Str
  pub before : Row
  pub is_replace : Bool

pub record PreparedRowWrite : Type 0 where
  pub row : Row
  pub changed_fields : Option (List Str)

-- What planning calls of an `ApplyTarget`, src/types/core.apply.transaction.types.ts. The last
-- arguments of `prepare_upsert` are the previous row, the origin, the merge base, the operation id
-- and the base revision.
pub record ApplyTarget : Type 0 where
  pub read_row : Str → Option Row
  pub read_all_rows : List Row
  pub plan_scope_placement : Str → List Str → (Str → Str → Option Row) → List ScopeEntry
  pub scope_order_affected : Str → Str → Option (List Str) → Bool
  pub row_belongs_to_scope : Str → Row → Bool
  pub is_server_order : Str → Bool
  pub prepare_upsert :
      Value
      → Option Row
      → Option RowOrigin
      → Option Row
      → Option Str
      → Option ℕ
      → Option PreparedRowWrite
  pub prepare_patch :
      Str → Row → Option Row → Option Str → Option (List Str) → Option ℕ → Option PreparedRowWrite
  pub admit_destroy : Str → Option ℕ → Bool
  pub reactive_scopes : List Str → List Str
