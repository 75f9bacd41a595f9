-- ===== src/Scope/Commit.antt =====
-- `commit` of the scope index keeps its membership maps in step with the committed entries.
use react_native_dblayer.Base.{
  ◌≡◌, refl, ap, sym, subst, ◌∙◌, Bool, true, false, Option, none, some, List, [], map,
  if◌then◌else◌,
}
use react_native_dblayer.Base.Str.{Str, str_eq}
use react_native_dblayer.Base.StrSet
use react_native_dblayer.Base.StrSet.{StrSet}
use react_native_dblayer.Base.StrMap
use react_native_dblayer.Base.StrMap.{StrMap}
use react_native_dblayer.Scope.Entry.{ScopeIndexValue, has_id, entry_id}
use react_native_dblayer.Scope.State.{
  State, set_at, add_ids, entries_of, index_membership, index_commit, bump, landed, commit_live,
  commit_appended, commit,
}
use react_native_dblayer.Scope.Methods.{has_member, keys_of}
use react_native_dblayer.Scope.Membership.{are_distinct}
use react_native_dblayer.Scope.Indexed.{
  IsCoherent, Commits, id_after, landed-Commits, appended-Commits,
}

-- The same maps, whatever else differs.
record SameMaps (s t : State) : Type 0 where
  members : t.member_sets ≡ s.member_sets
  rows : t.keys_by_row ≡ s.keys_by_row
  scopes : t.scopes ≡ s.scopes

SameMaps-IsCoherent : (s t : State) → SameMaps s t → IsCoherent s → IsCoherent t
unfolding has_member keys_of
SameMaps-IsCoherent s t same c = record {
  members = λ key id.
      ap (λ m. StrSet.has id (set_at key m)) same.members
      ∙ c.members key id
      ∙ ap (λ m. has_id id (entries_of (StrMap.get key m))) (sym same.scopes);
  rows = λ key id.
      ap (λ m. StrSet.has key (set_at id m)) same.rows
      ∙ c.rows key id
      ∙ ap (λ m. StrSet.has id (set_at key m)) (sym same.members);
}

SameMaps-Commits :
    (key : Str) (next : ScopeIndexValue) (s t : State)
    → SameMaps s t
    → IsCoherent s
    → are_distinct (map entry_id (entries_of (StrMap.get key s.scopes))) ≡ true
    → Commits key next s (landed key next (index_commit key (StrMap.get key s.scopes) next t))
SameMaps-Commits key next s t same c d =
    let (s', e, c', scopes) = landed-Commits key next t (SameMaps-IsCoherent s t same c) (
      subst (λ m. are_distinct (map entry_id (entries_of (StrMap.get key m))) ≡ true)
        (sym same.scopes) d) in
    (
      s',
      subst (λ m. landed key next (index_commit key (StrMap.get key m) next t) ≡ some s')
          same.scopes e,
      c',
      λ k. scopes k ∙ ap (λ m. if str_eq key k then some next else StrMap.get k m) same.scopes,
    )

bump-SameMaps :
    (b : Bool) (key : Str) (s : State)
    → (let s' = if b then s else bump key s in
        SameMaps s (record s' { removed = StrSet.delete key s'.removed }))
unfolding bump
bump-SameMaps true key s = record { members = refl; rows = refl; scopes = refl }
bump-SameMaps false key s = record { members = refl; rows = refl; scopes = refl }

SameMaps-Commits_appended :
    (key : Str) (next : ScopeIndexValue) (added : List Str) (s t : State)
    → SameMaps s t
    → IsCoherent s
    → ((id : Str)
        → has_id id next.entries
          ≡ id_after (some added) (entries_of (StrMap.get key s.scopes)) next.entries id)
    → Commits key next s
        (landed key next (index_membership key (add_ids added (set_at key s.member_sets)) [] t))
SameMaps-Commits_appended key next added s t same c grown =
    let (s', e, c', scopes) = appended-Commits key next added t (SameMaps-IsCoherent s t same c) (
      subst
        (λ m.
          (id : Str)
          → has_id id next.entries
            ≡ id_after (some added) (entries_of (StrMap.get key m)) next.entries id)
        (sym same.scopes) grown) in
    (
      s',
      subst
          (λ m.
            landed key next (index_membership key (add_ids added (set_at key m)) [] t) ≡ some s')
          same.members e,
      c',
      λ k. scopes k ∙ ap (λ m. if str_eq key k then some next else StrMap.get k m) same.scopes,
    )

-- Where the membership maps are in step with the committed entries, nothing is staged and the
-- entries under a key have distinct ids: a commit under that key, by the append path when it is
-- given added ids and by the path that compares when it is not, throws nothing, the maps are in
-- step again, the key has the new value and every other key the value it had. On the append path
-- the new entries have the ids of the old ones and the added ids.
pub commit-IsCoherent :
    (key : Str) (next : ScopeIndexValue) (fast_add : Option (List Str)) (s : State)
    → IsCoherent s
    → s.staged_scopes ≡ none
    → are_distinct (map entry_id (entries_of (StrMap.get key s.scopes))) ≡ true
    → ((id : Str)
        → has_id id next.entries
          ≡ id_after fast_add (entries_of (StrMap.get key s.scopes)) next.entries id)
    → Commits key next s (commit key next fast_add s)
unfolding commit commit_live commit_appended
commit-IsCoherent key next none s c unstaged d grown =
    rw (unstaged, commit) (SameMaps-Commits key next s _ (bump-SameMaps _ key s) c d)
commit-IsCoherent key next (some added) s c unstaged d grown =
    rw (unstaged, commit)
      (SameMaps-Commits_appended key next added s _ (bump-SameMaps false key s) c grown)
