-- ===== src/Scope/Reconcile.antt =====
-- `reconcileNext` and `trimValue` of src/core/planes/scopeIndex.ts, which read no other state.
-- `none` is a throw: of `keysForSequence`, or for an invalid result.
use react_native_dblayer.Base.{
  ℕ, suc, ◌-◌, Bool, true, false, ◌&&◌, ◌||◌, not, Option, none, some, List, [], ◌∷◌, ◌++◌, map,
  leb, ltb, ◌==◌, if◌then◌else◌, any, keep, length,
}
use react_native_dblayer.Base.Str.{Str, str_eq}
use react_native_dblayer.Base.StrSet
use react_native_dblayer.Base.StrSet.{StrSet}
use react_native_dblayer.OrderKey.Sequence.{keys_for_sequence}
use react_native_dblayer.Scope.Entry.{
  ScopeCoverage, complete, page, ScopeEntry, ScopeIndexValue, IncomingScopeRow, ReconcileResult,
  is_complete, is_page, sort_entries, deduplicate_by_id, row_id, entry_id, has_id,
  is_scope_index_value,
}
use react_native_dblayer.Scope.Placement.{taken_keys, held_keys, placed, place_rows}

-- The `opts` of a reconcile. Absent `protectedIds` are no ids.
pub record ReconcileOptions : Type 0 where
  pub reset_order : Bool
  pub protected_ids : StrSet

unfoldable pub same_ids : List ScopeEntry → List Str → Bool
same_ids [] [] = true
same_ids (e ∷ es) (id ∷ ids) = str_eq e.id id && same_ids es ids
same_ids _ _ = false

abbrev pub copy_entry : ScopeEntry → ScopeEntry
copy_entry e = record { id = e.id; order_key = e.order_key }

-- `mergeByKey`
unfoldable pub merge_by_key : List ScopeEntry → List ScopeEntry → List ScopeEntry
merge_by_key previous incoming =
    sort_entries (keep (λ e. not (has_id e.id incoming)) previous ++ incoming)

unfoldable pub result : ScopeIndexValue → List Str → Option ReconcileResult
result next detached_ids =
    if is_scope_index_value next
    then some (record { next = next; detached_ids = detached_ids })
    else none

unfoldable pub has_row : Str → List IncomingScopeRow → Bool
has_row id rows = any (λ r. str_eq r.id id) rows

-- The members of a snapshot that the payload misses and an open operation holds.
unfoldable pub held_entries : StrSet → List IncomingScopeRow → List ScopeEntry → List ScopeEntry
unfolding has_row
held_entries protected_ids rows es =
    keep (λ e. not (has_row e.id rows) && StrSet.has e.id protected_ids) es

unfoldable pub detached_entries : StrSet → List IncomingScopeRow → List ScopeEntry → List ScopeEntry
unfolding has_row
detached_entries protected_ids rows es =
    keep (λ e. not (has_row e.id rows) && not (StrSet.has e.id protected_ids)) es

unfoldable pub is_none_held : List ScopeEntry → Bool
is_none_held [] = true
is_none_held (e ∷ es) = false

-- Entries for a complete payload that brings a new order.
unfoldable pub place_complete : List IncomingScopeRow → List ScopeEntry → Option (List ScopeEntry)
unfolding held_keys
place_complete rows held = elim (keys_for_sequence (length rows) none none) [
  | none ↦ none
  | some keys ↦ place_rows (taken_keys rows (held_keys held [])) rows keys
]

unfoldable pub reconcile_complete :
    ScopeIndexValue → List IncomingScopeRow → StrSet → Option ReconcileResult
unfolding result is_none_held
reconcile_complete previous rows protected_ids =
    let held = held_entries protected_ids rows previous.entries in
    let detached = map entry_id (detached_entries protected_ids rows previous.entries) in
    if is_none_held held && same_ids previous.entries (map row_id rows)
    then result
        (record {
          generation = suc previous.generation;
          coverage = complete;
          entries = map copy_entry previous.entries;
        })
        detached
    else elim (place_complete rows held) [
      | none ↦ none
      | some placed ↦
          result
            (record {
              generation = suc previous.generation;
              coverage = complete;
              entries = sort_entries (placed ++ map copy_entry held);
            })
            detached
    ]

-- Rows beside their keys; a missing key makes the value invalid, which throws.
zip_keys : List Str → List Str → Option (List ScopeEntry)
zip_keys [] keys = some []
zip_keys (id ∷ ids) [] = none
zip_keys (id ∷ ids) (key ∷ keys) = elim (zip_keys ids keys) [
  | none ↦ none
  | some es ↦ some (record { id = id; order_key = key } ∷ es)
]

first_key : List ScopeEntry → Option Str
first_key [] = none
first_key (e ∷ es) = some e.order_key

last_key : List ScopeEntry → Option Str
last_key [] = none
last_key (e ∷ []) = some e.order_key
last_key (e ∷ f ∷ es) = last_key (f ∷ es)

retained_coverage : ScopeCoverage → ScopeCoverage → ScopeCoverage
retained_coverage previous coverage = if is_complete previous then complete else coverage

keyed_entries : List Str → Option Str → Option Str → Option (List ScopeEntry)
unfolding zip_keys
keyed_entries ids lower upper = elim (keys_for_sequence (length ids) lower upper) [
  | none ↦ none
  | some keys ↦ zip_keys ids keys
]

-- A page that resets the order: the payload leads, the other members follow.
unfoldable pub reconcile_reset : ScopeIndexValue → List IncomingScopeRow → Option ReconcileResult
unfolding result has_row keyed_entries first_key retained_coverage
reconcile_reset previous rows =
    let tail = keep (λ e. not (has_row e.id rows)) previous.entries in
    let coverage = retained_coverage previous.coverage page in
    if same_ids previous.entries (map row_id rows ++ map entry_id tail)
    then result
        (record {
          generation = suc previous.generation;
          coverage = coverage;
          entries = map copy_entry previous.entries;
        })
        []
    else elim (keyed_entries (map row_id rows) none (first_key tail)) [
      | none ↦ none
      | some head ↦
          result
            (record {
              generation = suc previous.generation;
              coverage = coverage;
              entries = head ++ tail;
            })
            []
    ]

-- `previousById.get(id)`
find_entry : Str → List ScopeEntry → Option ScopeEntry
find_entry id [] = none
find_entry id (e ∷ es) = elim (find_entry id es) [
  | none ↦ if str_eq e.id id then some e else none
  | some later ↦ some later
]

-- Where a row that is merged lands: its own key, or its entry's.
keyed_as : List ScopeEntry → IncomingScopeRow → Option ScopeEntry
unfolding find_entry
keyed_as previous row = elim row.order_key [
  | some key ↦ some (record { id = row.id; order_key = key })
  | none ↦ elim (find_entry row.id previous) [ none ↦ none | some e ↦ some (copy_entry e) ]
]

split_rows : List ScopeEntry → List IncomingScopeRow → List ScopeEntry × List IncomingScopeRow
unfolding keyed_as
split_rows previous [] = ([], [])
split_rows previous (row ∷ rows) =
    let (keyed, keyless) = split_rows previous rows in
    elim (keyed_as previous row) [ none ↦ (keyed, row ∷ keyless) | some e ↦ (e ∷ keyed, keyless) ]

-- A page or a delta that merges.
unfoldable pub reconcile_merge :
    ScopeIndexValue → ScopeCoverage → List IncomingScopeRow → Option ReconcileResult
unfolding result keyed_entries last_key split_rows retained_coverage
reconcile_merge previous coverage rows =
    let (keyed, keyless) = split_rows previous.entries rows in
    let after_keyed = merge_by_key previous.entries keyed in
    elim (keyed_entries (map row_id keyless) (last_key after_keyed) none) [
      | none ↦ none
      | some tail ↦
          result
            (record {
              generation = suc previous.generation;
              coverage = retained_coverage previous.coverage coverage;
              entries = after_keyed ++ tail;
            })
            []
    ]

-- `reconcileNext`, given the current value.
unfoldable pub reconcile_next :
    ScopeIndexValue
    → ScopeCoverage
    → List IncomingScopeRow
    → ReconcileOptions
    → Option ReconcileResult
reconcile_next previous coverage incoming options =
    let rows = deduplicate_by_id row_id incoming in
    if is_complete coverage
    then reconcile_complete previous rows options.protected_ids
    else if is_page coverage && options.reset_order
    then reconcile_reset previous rows
    else reconcile_merge previous coverage rows

-- The loop of `trimValue`, from a budget: what stays and what goes.
unfoldable pub trim_entries : ℕ → StrSet → List ScopeEntry → List ScopeEntry × List Str
trim_entries budget protected_ids [] = ([], [])
trim_entries budget protected_ids (e ∷ es) =
    let (kept, trimmed) =
      trim_entries (if StrSet.has e.id protected_ids then budget else budget - 1) protected_ids
        es in
    if StrSet.has e.id protected_ids || ltb 0 budget
    then (e ∷ kept, trimmed)
    else (kept, e.id ∷ trimmed)

-- `trimValue`. Both early returns give the value back as it is.
unfoldable pub trim_value : ScopeIndexValue → ℕ → StrSet → ScopeIndexValue × List Str
unfolding trim_entries
trim_value value max_rows protected_ids =
    let (kept, trimmed) = trim_entries max_rows protected_ids value.entries in
    if leb (length value.entries) max_rows || length trimmed == 0 then (value, []) else (
      record { generation = suc value.generation; coverage = value.coverage; entries = kept },
      trimmed,
    )
