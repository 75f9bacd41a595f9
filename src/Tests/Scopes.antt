-- ===== src/Tests/Scopes.antt =====
-- The scope index at concrete inputs.
use react_native_dblayer.Base.{arith, ◌≡◌, refl, false, ◌||◌, some, List, [], ◌∷◌, any, every}
use react_native_dblayer.Base.Str.{Str, text, str_eq, str_lt}
use react_native_dblayer.Base.StrMap
use react_native_dblayer.Base.StrSet
use react_native_dblayer.Base.StrSet.{StrSet}
use react_native_dblayer.OrderKey.{is_order_key}
use react_native_dblayer.Scope.Entry.{
  complete, ScopeEntry, ScopeIndexValue, is_ascending, entry_lt, has_id,
}
use react_native_dblayer.Scope.Reconcile.{merge_by_key, trim_value}
use react_native_dblayer.Scope.Placement.{free_key}
use react_native_dblayer.Scope.State.{State, commit}
use react_native_dblayer.Scope.Methods.{
  fresh, begin_apply, abort_apply, delta_entries, is_pure_append, has_member, keys_of,
}
use react_native_dblayer.Scope.Append.{delta_entries-merge_by_key}
use react_native_dblayer.Scope.FreeKey.{IsFree, free_key-IsFree}
use react_native_dblayer.Scope.Trim.{IsCut, trim_value-IsCut}
use react_native_dblayer.Scope.Staging.{Edit, write, detach, run_edits, abort_apply-run_edits}
use react_native_dblayer.Scope.Indexed.{IsCoherent, Commits}
use react_native_dblayer.Scope.Commit.{commit-IsCoherent}

abbrev entry : Str → Str → ScopeEntry
entry id order_key = record { id = id; order_key = order_key }

abbrev two_entries : List ScopeEntry
two_entries = entry (text "a") (text "G") ∷ entry (text "b") (text "V") ∷ []

abbrev two_rows : ScopeIndexValue
two_rows = record { generation = 1; coverage = complete; entries = two_entries }

delta_entries-merge_by_key_example :
    delta_entries
      (is_pure_append (text "a" ∷ text "b" ∷ []) two_entries (entry (text "c") (text "k") ∷ []) [])
      two_entries
      (entry (text "c") (text "k") ∷ [])
    ≡ merge_by_key two_entries (entry (text "c") (text "k") ∷ [])
unfolding is_ascending StrSet.has entry_lt str_lt every str_eq
delta_entries-merge_by_key_example =
    delta_entries-merge_by_key (text "a" ∷ text "b" ∷ []) two_entries
      (entry (text "c") (text "k") ∷ []) [] refl refl

free_key-IsFree_example :
    IsFree
      (text "G" ∷ text "V" ∷ [])
      (text "G")
      (some (text "z"))
      (free_key 3 (text "G" ∷ text "V" ∷ []) (text "G") (some (text "z")))
unfolding is_order_key str_lt every
free_key-IsFree_example =
    free_key-IsFree (text "G" ∷ text "V" ∷ []) (text "G") (some (text "z")) refl refl refl refl
      (omega arith)

trim_value-IsCut_example : IsCut two_rows 1 (text "b" ∷ []) (trim_value two_rows 1 (text "b" ∷ []))
trim_value-IsCut_example = trim_value-IsCut two_rows 1 (text "b" ∷ [])

-- The initial index is coherent.
fresh-IsCoherent : IsCoherent fresh
unfolding has_member keys_of has_id any StrSet.has StrMap.get
fresh-IsCoherent = record { members = λ key id. refl; rows = λ key id. refl }

-- Two ids appended to an empty scope.
two_appended :
    (id : Str) → has_id id two_entries ≡ (false || StrSet.has id (text "a" ∷ text "b" ∷ []))
unfolding has_id any StrSet.has
two_appended id = ground arith

commit-IsCoherent_example :
    Commits
      (text "list")
      two_rows
      fresh
      (commit (text "list") two_rows (some (text "a" ∷ text "b" ∷ [])) fresh)
unfolding StrMap.get has_id any
commit-IsCoherent_example =
    commit-IsCoherent (text "list") two_rows (some (text "a" ∷ text "b" ∷ [])) fresh
      fresh-IsCoherent refl refl two_appended

abbrev three_edits : List Edit
three_edits = write (text "list") two_rows ∷ detach (text "list") (text "a" ∷ []) ∷ []

abbrev begun : State
begun = record fresh { staged_scopes = some [] }

abort_apply-run_edits_example :
    (s2 : State) × (run_edits three_edits begun ≡ some s2) × (abort_apply s2 ≡ fresh)
unfolding begin_apply
abort_apply-run_edits_example = abort_apply-run_edits three_edits fresh begun refl
