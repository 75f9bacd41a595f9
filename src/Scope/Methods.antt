-- ===== src/Scope/Methods.antt =====
-- The methods of the scope index. `none` is a throw.
use react_native_dblayer.Base.{
  ℕ, suc, Bool, true, false, ◌&&◌, not, Option, none, some, List, [], ◌∷◌, ◌++◌, map, if◌then◌else◌,
  every, keep, length,
}
use react_native_dblayer.Base.Str.{Str, str_lt}
use react_native_dblayer.Base.StrSet
use react_native_dblayer.Base.StrSet.{StrSet}
use react_native_dblayer.Base.StrMap
use react_native_dblayer.Base.StrMap.{StrMap}
use react_native_dblayer.Scope.Entry.{
  ScopeEntry, ScopeIndexValue, sort_entries, deduplicate_by_id, entry_id,
}
use react_native_dblayer.Scope.Reconcile.{merge_by_key}
use react_native_dblayer.Scope.State.{
  State, current_value, read_scope, set_at, add_ids, stage, commit, remove_committed,
}

-- `beginApply`
unfoldable pub begin_apply : State → Option State
begin_apply s = elim s.staged_scopes [
  | some staged ↦ none
  | none ↦ some (record s { staged_scopes = some [] })
]

unfoldable pub land_staged : StrMap (Option ScopeIndexValue) → State → Option State
land_staged [] s = some s
land_staged ((key, none) ∷ staged) s = elim (remove_committed key s) [
  | none ↦ none
  | some s' ↦ land_staged staged s'
]
land_staged ((key, some value) ∷ staged) s = elim (commit key value none s) [
  | none ↦ none
  | some s' ↦ land_staged staged s'
]

-- `commitApply`
unfoldable pub commit_apply : State → Option State
unfolding land_staged
commit_apply s = elim s.staged_scopes [
  | none ↦ none
  | some staged ↦ land_staged staged (record s { staged_scopes = none })
]

-- `abortApply`
unfoldable pub abort_apply : State → State
abort_apply s = record s { staged_scopes = none }

unfoldable pub last_order_key : List ScopeEntry → Option Str
last_order_key [] = none
last_order_key (e ∷ []) = some e.order_key
last_order_key (e ∷ f ∷ es) = last_order_key (f ∷ es)

-- Every entry is past the last order key there is.
unfoldable pub is_past : Option Str → List ScopeEntry → Bool
is_past none es = true
is_past (some key) es = every (λ e. str_lt key e.order_key) es

unfoldable pub no_ids : List Str → Bool
no_ids [] = true
no_ids (id ∷ ids) = false

-- `pureAppend`, with the members that it reads.
unfoldable pub is_pure_append : StrSet → List ScopeEntry → List ScopeEntry → List Str → Bool
unfolding last_order_key is_past no_ids
is_pure_append members base append removal =
    no_ids removal
    && (every (λ e. not (StrSet.has e.id members)) append && is_past (last_order_key base) append)

unfoldable pub without_ids : List Str → List ScopeEntry → List ScopeEntry
without_ids removal es = keep (λ e. not (StrSet.has e.id removal)) es

pub members_for : Str → List ScopeEntry → State → StrSet
members_for key previous s = elim s.staged_scopes [
  | some staged ↦ add_ids (map entry_id previous) []
  | none ↦ set_at key s.member_sets
]

-- The entries that `applyDelta` commits, by its fast path or by the merge.
unfoldable pub delta_entries : Bool → List ScopeEntry → List ScopeEntry → List ScopeEntry
delta_entries pure base append =
    if pure then base ++ sort_entries append else merge_by_key base append

-- `applyDelta`
unfoldable pub apply_delta : Str → List ScopeEntry → List Str → State → Option State
unfolding members_for
apply_delta key append detach s =
    let previous = read_scope key s in
    let appended = deduplicate_by_id entry_id append in
    let base = without_ids detach previous.entries in
    let pure = is_pure_append (members_for key previous.entries s) base appended detach in
    commit key
      (record {
        generation = suc previous.generation;
        coverage = previous.coverage;
        entries = delta_entries pure base appended;
      })
      (if pure then some (map entry_id appended) else none) s

-- `detach`
unfoldable pub detach_ids : Str → List Str → State → Option State
detach_ids key ids s =
    let previous = read_scope key s in
    commit key
      (record {
        generation = suc previous.generation;
        coverage = previous.coverage;
        entries = without_ids ids previous.entries;
      })
      none s

-- `write`
unfoldable pub write_scope : Str → ScopeIndexValue → State → Option State
write_scope key next s = commit key next none s

-- `remove`
unfoldable pub remove_scope : Str → State → Option State
unfolding stage
remove_scope key s = elim s.staged_scopes [
  | some staged ↦ some (stage key none staged s)
  | none ↦ remove_committed key s
]

pub staged_keys : StrMap (Option ScopeIndexValue) → StrSet → StrSet
staged_keys [] keys = keys
staged_keys ((key, none) ∷ staged) keys = staged_keys staged (StrSet.delete key keys)
staged_keys ((key, some value) ∷ staged) keys = staged_keys staged (StrSet.add key keys)

-- `keys`
unfoldable pub scope_keys : State → List Str
unfolding staged_keys
scope_keys s = elim s.staged_scopes [
  | none ↦ StrMap.keys s.scopes
  | some staged ↦ staged_keys staged (StrMap.keys s.scopes)
]

-- `noteAccess`
unfoldable pub note_access : ℕ → Str → State → State
note_access now key s = record s { access_times = StrMap.set key now s.access_times }

-- `has`
unfoldable pub has_member : Str → Str → State → Bool
has_member key id s = StrSet.has id (set_at key s.member_sets)

-- `keysOf`
unfoldable pub keys_of : Str → State → List Str
keys_of id s = set_at id s.keys_by_row

-- `residentRowKeys`
unfoldable pub resident_row_keys : State → ℕ
resident_row_keys s = length (StrMap.keys s.keys_by_row)

-- `touchMembers`
unfoldable pub touch_members : List Str → StrSet → State → StrSet
touch_members [] touched s = touched
touch_members (id ∷ ids) touched s = touch_members ids (add_ids (keys_of id s) touched) s

pub staged_names : Option (StrMap (Option ScopeIndexValue)) → List Str
staged_names none = []
staged_names (some staged) = StrMap.keys staged

-- `persistEntries`, before the storage key is composed and the value encoded.
unfoldable pub persist_entries : State → List (Str × Option ScopeIndexValue)
unfolding staged_names
persist_entries s =
    map (λ key. (key, current_value key s))
      (add_ids (staged_names s.staged_scopes) (add_ids s.removed (add_ids s.dirty [])))

-- `ackPersist`
unfoldable pub ack_persist : State → State
ack_persist s = record s { dirty = []; removed = [] }

-- `reset`
abbrev pub fresh : State
fresh = record {
  scopes = [];
  dirty = [];
  removed = [];
  member_sets = [];
  keys_by_row = [];
  order_revisions = [];
  access_times = [];
  staged_scopes = none;
}
