-- ===== src/Scope/State.antt =====
-- The maps of `createScopeIndex` and how a commit lands in them. `none` is a throw.
use react_native_dblayer.Base.{
  ℕ, suc, Bool, true, false, not, Option, none, some, List, [], ◌∷◌, map, if◌then◌else◌, keep,
}
use react_native_dblayer.Base.Str.{Str}
use react_native_dblayer.Base.StrSet
use react_native_dblayer.Base.StrSet.{StrSet}
use react_native_dblayer.Base.StrMap
use react_native_dblayer.Base.StrMap.{StrMap}
use react_native_dblayer.Scope.Entry.{delta, ScopeEntry, ScopeIndexValue, entry_id}
use react_native_dblayer.Scope.Reconcile.{same_ids}

pub record State : Type 0 where
  pub scopes : StrMap ScopeIndexValue
  pub dirty : StrSet
  pub removed : StrSet
  pub member_sets : StrMap StrSet
  pub keys_by_row : StrMap StrSet
  pub order_revisions : StrMap ℕ
  pub access_times : StrMap ℕ
  pub staged_scopes : Option (StrMap (Option ScopeIndexValue))

abbrev pub empty_value : ScopeIndexValue
empty_value = record { generation = 0; coverage = delta; entries = [] }

-- `current`
unfoldable pub current_value : Str → State → Option ScopeIndexValue
current_value key s = elim s.staged_scopes [
  | none ↦ StrMap.get key s.scopes
  | some staged ↦ elim (StrMap.get key staged) [
    | none ↦ StrMap.get key s.scopes
    | some value ↦ value
  ]
]

-- `read`
unfoldable pub read_scope : Str → State → ScopeIndexValue
unfolding current_value
read_scope key s = elim (current_value key s) [ none ↦ empty_value | some value ↦ value ]

abbrev pub set_at : Str → StrMap StrSet → StrSet
set_at k m = elim (StrMap.get k m) [ none ↦ [] | some members ↦ members ]

unfoldable pub without_empty_set : Str → StrSet → StrMap StrSet → StrMap StrSet
without_empty_set id [] m = StrMap.delete id m
without_empty_set id (k ∷ keys) m = StrMap.set id (k ∷ keys) m

-- Takes a scope key from the key sets of rows.
unfoldable pub drop_rows : Str → List Str → StrMap StrSet → Option (StrMap StrSet)
unfolding without_empty_set
drop_rows key [] m = some m
drop_rows key (id ∷ ids) m = elim (StrMap.get id m) [
  | none ↦ none
  | some keys ↦ drop_rows key ids (without_empty_set id (StrSet.delete key keys) m)
]

unfoldable pub hold_rows : Str → List Str → StrMap StrSet → StrMap StrSet
hold_rows key [] m = m
hold_rows key (id ∷ ids) m = hold_rows key ids (StrMap.set id (StrSet.add key (set_at id m)) m)

-- `indexMembership`
unfoldable pub index_membership : Str → StrSet → List Str → State → Option State
unfolding drop_rows hold_rows
index_membership key members departed s = elim (drop_rows key departed s.keys_by_row) [
  | none ↦ none
  | some m ↦ some (record s {
    keys_by_row = hold_rows key members m;
    member_sets = StrMap.set key members s.member_sets;
  })
]

unfoldable pub add_ids : List Str → StrSet → StrSet
add_ids [] members = members
add_ids (id ∷ ids) members = add_ids ids (StrSet.add id members)

abbrev pub entries_of : Option ScopeIndexValue → List ScopeEntry
entries_of none = []
entries_of (some value) = value.entries

unfoldable pub departed_ids : List ScopeEntry → StrSet → List Str
departed_ids previous next_ids = map entry_id (keep (λ e. not (StrSet.has e.id next_ids)) previous)

-- `indexCommit`
unfoldable pub index_commit : Str → Option ScopeIndexValue → ScopeIndexValue → State → Option State
unfolding index_membership
index_commit key previous next s =
    let next_ids = add_ids (map entry_id next.entries) [] in
    index_membership key next_ids (departed_ids (entries_of previous) next_ids) s

unfoldable pub is_no_entry : List ScopeEntry → Bool
is_no_entry [] = true
is_no_entry (e ∷ es) = false

-- `sameEntryOrder`
unfoldable pub same_entry_order : Option ScopeIndexValue → List ScopeEntry → Bool
unfolding is_no_entry
same_entry_order none next = is_no_entry next
same_entry_order (some previous) next = same_ids previous.entries (map entry_id next)

-- `orderRevision`
unfoldable pub order_revision : Str → State → ℕ
order_revision key s = elim (StrMap.get key s.order_revisions) [ none ↦ 0 | some n ↦ n ]

unfoldable pub bump : Str → State → State
bump key s = record s {
  order_revisions = StrMap.set key (suc (order_revision key s)) s.order_revisions;
}

unfoldable pub landed : Str → ScopeIndexValue → Option State → Option State
landed key next none = none
landed key next (some s) =
    some (record s { scopes = StrMap.set key next s.scopes; dirty = StrSet.add key s.dirty })

unfoldable pub commit_live : Str → ScopeIndexValue → State → Option State
unfolding same_entry_order bump landed
commit_live key next s =
    let s' = if same_entry_order (StrMap.get key s.scopes) next.entries then s else bump key s in
    landed key next (
      index_commit key (StrMap.get key s.scopes) next
        (record s' { removed = StrSet.delete key s'.removed }))

unfoldable pub commit_appended : Str → ScopeIndexValue → List Str → State → Option State
unfolding bump landed
commit_appended key next added s =
    let s' = bump key s in
    landed key next (
      index_membership key (add_ids added (set_at key s.member_sets)) []
        (record s' { removed = StrSet.delete key s'.removed }))

unfoldable pub stage :
    Str → Option ScopeIndexValue → StrMap (Option ScopeIndexValue) → State → State
stage key value staged s = record s { staged_scopes = some (StrMap.set key value staged) }

-- `commit`
unfoldable pub commit : Str → ScopeIndexValue → Option (List Str) → State → Option State
unfolding stage
commit key next fast_add s = elim s.staged_scopes [
  | some staged ↦ some (stage key (some next) staged s)
  | none ↦ elim fast_add [
    | none ↦ commit_live key next s
    | some added ↦ commit_appended key next added s
  ]
]

without_members : Str → Option StrSet → State → Option State
without_members key none s = some s
without_members key (some members) s = elim (drop_rows key members s.keys_by_row) [
  | none ↦ none
  | some m ↦ some (record s { keys_by_row = m; member_sets = StrMap.delete key s.member_sets })
]

-- `removeCommitted`
unfoldable pub remove_committed : Str → State → Option State
unfolding without_members
remove_committed key s = elim (without_members key (StrMap.get key s.member_sets) s) [
  | none ↦ none
  | some s' ↦ some (record s' {
    scopes = StrMap.delete key s'.scopes;
    dirty = StrSet.delete key s'.dirty;
    removed = StrSet.add key s'.removed;
    access_times = StrMap.delete key s'.access_times;
  })
]
