-- ===== src/Tests/Reconciles.antt =====
-- Reconciles at concrete inputs.
use react_native_dblayer.Base.{◌≡◌, refl, none, some, List, [], ◌∷◌}
use react_native_dblayer.Base.Str.{text}
use react_native_dblayer.Base.StrSet
use react_native_dblayer.Scope.Entry.{complete, ScopeIndexValue, IncomingScopeRow, ReconcileResult}
use react_native_dblayer.Base.{any, every, keep}
use react_native_dblayer.Base.Str.{str_eq, str_lt}
use react_native_dblayer.OrderKey.{
  between, digit_at, index_from, index_of, is_digit, is_order_key, key_between, separate,
}
use react_native_dblayer.OrderKey.Sequence.{
  after_floor_at, bounds_at, ceiling_at, chain, even_keys, fits, key_value, keys_for_sequence,
  padded_from, padded_value, size_from, to_key, to_key_from, width,
}
use react_native_dblayer.Scope.Entry.{
  entry_lt, insert_entry, is_ascending, is_scope_entry, is_scope_entry_set, is_scope_index_value,
  sort_entries,
}
use react_native_dblayer.Scope.Placement.{
  free_key, held_keys, key_for_row, next_key, place_rows, placed, taken_keys, taken_with,
}
use react_native_dblayer.Scope.Reconcile.{
  reconcile_complete, detached_entries, has_row, held_entries, is_none_held, place_complete, result,
  same_ids,
}
use react_native_dblayer.Scope.Members.{Reconciles, reconcile_complete-Reconciles}

abbrev before : ScopeIndexValue
before = record {
  generation = 1;
  coverage = complete;
  entries =
      record { id = text "a"; order_key = text "G" }
      ∷ record { id = text "b"; order_key = text "V" }
      ∷ record { id = text "c"; order_key = text "k" }
      ∷ [];
}

abbrev payload : List IncomingScopeRow
payload =
    record { id = text "d"; order_key = none } ∷ record { id = text "a"; order_key = none } ∷ []

-- `b` is held, `c` is detached.
abbrev after : ReconcileResult
after = record {
  next = record {
    generation = 2;
    coverage = complete;
    entries =
        record { id = text "d"; order_key = text "K" }
        ∷ record { id = text "b"; order_key = text "V" }
        ∷ record { id = text "a"; order_key = text "f" }
        ∷ [];
  };
  detached_ids = text "c" ∷ [];
}

reconcile_run : reconcile_complete before payload (text "b" ∷ []) ≡ some after
unfolding reconcile_complete StrSet.add StrSet.has after_floor_at any between bounds_at ceiling_at
    chain detached_entries digit_at entry_lt even_keys every fits free_key has_row held_entries
    held_keys index_from index_of insert_entry is_ascending is_digit is_none_held is_order_key
    is_scope_entry is_scope_entry_set is_scope_index_value keep key_between key_for_row key_value
    keys_for_sequence next_key padded_from padded_value place_complete place_rows placed result
    same_ids separate size_from sort_entries str_eq str_lt taken_keys taken_with to_key to_key_from
    width
reconcile_run = refl

reconcile_complete-Reconciles_example : Reconciles before payload (text "b" ∷ []) after
reconcile_complete-Reconciles_example =
    reconcile_complete-Reconciles before payload (text "b" ∷ []) after reconcile_run
