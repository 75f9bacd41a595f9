-- ===== src/Tests/Ledgers.antt =====
-- The operation ledger at concrete inputs.
use react_native_dblayer.Base.{
  ◌+◌, ◌≡◌, refl, true, not, none, some, List, [], ◌∷◌, length, keep, any, ◌⊎◌,
}
use react_native_dblayer.Base.Str.{text, str_eq}
use react_native_dblayer.Base.StrSet
use react_native_dblayer.Base.StrMap
use react_native_dblayer.Base.StrMap.{StrMap}
use react_native_dblayer.Ledger.Types.{
  OperationRecord, OperationTransition, pending, committed, failed, insert, request, close, begin,
  is_retained_once, is_pending_patch_owner,
}
use react_native_dblayer.Ledger.Transition.{apply_transition}
use react_native_dblayer.Ledger.State.{
  State, persist, index_record, index_rows, row_keys, strip, sorted_keys, bucket_add, bucket_delete,
  unindex_record, unindex_rows,
}
use react_native_dblayer.CompositeKey.{composite_key, decimal}
use react_native_dblayer.Ledger.Methods.{
  begin_operation, apply_transitions, persist_entries, prepare_transitions, prune, is_prunable,
  apply_one,
}
use react_native_dblayer.Ledger.Queries.{open_operations}
use react_native_dblayer.Ledger.OnceKeys.{KeepsOnceKeys, apply_transition-KeepsOnceKeys}
use react_native_dblayer.Ledger.Durable.{prepare_transitions-apply_transitions}
use react_native_dblayer.Ledger.Closed.{closed-apply_transitions}
use react_native_dblayer.Ledger.Prune.{prune-keeps_open}

abbrev empty_ledger : State
empty_ledger = record {
  operations = [];
  committed_keys = [];
  pending_keys = [];
  hydrated_pending_ids = [];
  pending_patch_count = 0;
  ops_by_row_key = [];
  next_ref = 0;
  stored = none;
  unknown_acks = 0;
}

abbrev one_insert : OperationRecord
one_insert = record {
  operation_id = text "op";
  action_key = text "user.create";
  action_mode = request;
  model = text "user";
  temp_ids = text "t" ∷ [];
  row_ids = text "t" ∷ [];
  intent = insert;
  status = pending;
  idempotency_key = some (text "k");
  once = some true;
  patched_fields = none;
  patched_values = none;
  input = none;
  rollback_row = none;
  rollback_memberships = none;
  created_at = 5;
}

abbrev commit_it : List OperationTransition
commit_it = close (text "op") committed ∷ []

abbrev begun_ledger : State
begun_ledger = record empty_ledger {
  operations = (text "op", record { ref = 0; operation = one_insert }) ∷ [];
  pending_keys = text "k" ∷ [];
  ops_by_row_key = (text "4:user1:t", record { ref = 0; operation = one_insert } ∷ []) ∷ [];
  next_ref = 1;
  stored = some (record { operations = (text "op", one_insert) ∷ []; committed_keys = [] });
}

abbrev committed_insert : OperationRecord
committed_insert = record one_insert { status = committed }

abbrev committed_ledger : State
committed_ledger = record begun_ledger {
  operations = (text "op", record { ref = 1; operation = committed_insert }) ∷ [];
  committed_keys = text "k" ∷ [];
  pending_keys = [];
  ops_by_row_key = (text "4:user1:t", record { ref = 1; operation = committed_insert } ∷ []) ∷ [];
  next_ref = 2;
}

begin_run : begin_operation one_insert empty_ledger ≡ begun_ledger
unfolding begin_operation persist index_record StrMap.set is_retained_once StrSet.add
    is_pending_patch_owner index_rows StrSet.has row_keys strip sorted_keys composite_key bucket_add
    decimal any StrMap.get
begin_run = refl

commit_run :
    apply_transitions commit_it begun_ledger ≡ some (committed_ledger, committed_insert ∷ [])
unfolding apply_transitions apply_one StrMap.get str_eq unindex_record unindex_rows row_keys
    composite_key decimal apply_transition index_record is_retained_once StrSet.delete
    is_pending_patch_owner index_rows StrSet.add StrMap.set StrSet.has bucket_delete StrMap.delete
    bucket_add any
commit_run = refl

empty-KeepsOnceKeys : KeepsOnceKeys [] []
unfolding StrMap.get
empty-KeepsOnceKeys = record { at = λ id e found. cc }

begun-KeepsOnceKeys : KeepsOnceKeys begun_ledger.operations begun_ledger.committed_keys
unfolding apply_transition StrMap.set
begun-KeepsOnceKeys = apply_transition-KeepsOnceKeys 0 [] [] (begin one_insert) empty-KeepsOnceKeys

committed-KeepsOnceKeys : KeepsOnceKeys committed_ledger.operations committed_ledger.committed_keys
committed-KeepsOnceKeys =
    (prepare_transitions-apply_transitions commit_it begun_ledger committed_ledger
      (committed_insert ∷ []) begun-KeepsOnceKeys commit_run).2

prepare_transitions-apply_transitions_example :
    (persist_entries committed_ledger ≡ prepare_transitions commit_it begun_ledger)
    × (committed_ledger.stored ≡ begun_ledger.stored)
    × KeepsOnceKeys committed_ledger.operations committed_ledger.committed_keys
prepare_transitions-apply_transitions_example =
    prepare_transitions-apply_transitions commit_it begun_ledger committed_ledger
      (committed_insert ∷ []) begun-KeepsOnceKeys commit_run

abbrev fail_it : List OperationTransition
fail_it = close (text "op") failed ∷ []

-- A second close of a closed operation changes nothing in the index.
fail_run :
    apply_transitions fail_it committed_ledger ≡ some (record committed_ledger { next_ref = 3 }, [])
unfolding apply_transitions apply_one StrMap.get str_eq unindex_record unindex_rows row_keys
    composite_key decimal apply_transition index_record is_retained_once StrSet.delete
    is_pending_patch_owner index_rows StrSet.add StrMap.set StrSet.has bucket_delete StrMap.delete
    bucket_add any
fail_run = refl

closed-apply_transitions_example :
    (StrMap.get (text "op") committed_ledger.operations
      ≡ some (record { ref = 1; operation = committed_insert }))
    ⊎ (StrMap.get (text "op") committed_ledger.operations ≡ none)
unfolding StrMap.get str_eq
closed-apply_transitions_example =
    closed-apply_transitions fail_it committed_ledger (record committed_ledger { next_ref = 3 }) []
      (text "op") (record { ref = 1; operation = committed_insert }) committed-KeepsOnceKeys
      fail_run (refl, refl) refl refl

prune-keeps_open_example :
    (StrMap.values (prune 9000000 committed_ledger).0.operations
      ≡ keep
          (λ e. not (is_prunable 9000000 e.operation))
          (StrMap.values committed_ledger.operations))
    × (length (StrMap.values (prune 9000000 committed_ledger).0.operations)
          + (prune 9000000 committed_ledger).1
        ≡ length (StrMap.values committed_ledger.operations))
    × (open_operations (prune 9000000 committed_ledger).0 ≡ open_operations committed_ledger)
prune-keeps_open_example = prune-keeps_open 9000000 committed_ledger
