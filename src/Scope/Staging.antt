-- ===== src/Scope/Staging.antt =====
-- The apply overlay of the scope index: edits between `beginApply` and `abortApply`.
use react_native_dblayer.Base.{
  ◌≡◌, refl, ap, sym, ◌∙◌, Option, none, some, List, [], ◌∷◌, arith, Option-cases, inl, inr,
}
use react_native_dblayer.Base.Str.{Str}
use react_native_dblayer.Base.StrMap
use react_native_dblayer.Base.StrMap.{StrMap}
use react_native_dblayer.Scope.Entry.{ScopeEntry, ScopeIndexValue}
use react_native_dblayer.Scope.State.{State, commit, stage}
use react_native_dblayer.Scope.Methods.{
  begin_apply, abort_apply, write_scope, detach_ids, apply_delta, remove_scope,
}

-- The changes that a plan makes to the scope index.
pub data Edit : Type 0 where
  write : Str → ScopeIndexValue → Edit
  append : Str → List ScopeEntry → List Str → Edit
  detach : Str → List Str → Edit
  drop_scope : Str → Edit

unfoldable pub run_edit : Edit → State → Option State
run_edit (write key next) s = write_scope key next s
run_edit (append key entries ids) s = apply_delta key entries ids s
run_edit (detach key ids) s = detach_ids key ids s
run_edit (drop_scope key) s = remove_scope key s

unfoldable pub run_edits : List Edit → State → Option State
run_edits [] s = some s
run_edits (e ∷ es) s = elim (run_edit e s) [ none ↦ none | some s' ↦ run_edits es s' ]

-- An edit on an overlay returns a state that differs in the overlay alone.
abbrev Overlays : State → Option State → Type 0
Overlays s result =
    (s' : State) × (result ≡ some s')
    × (abort_apply s' ≡ abort_apply s)
    × ((staged : StrMap (Option ScopeIndexValue)) × (s'.staged_scopes ≡ some staged))

abbrev IsStaged : State → Type 0
IsStaged s = (staged : StrMap (Option ScopeIndexValue)) × (s.staged_scopes ≡ some staged)

commit-Overlays :
    (key : Str) (next : ScopeIndexValue) (fast : Option (List Str)) (s : State)
    → IsStaged s
    → Overlays s (commit key next fast s)
unfolding commit stage abort_apply
commit-Overlays key next fast s (staged, e) =
    rw (e, commit)
      (stage key (some next) staged s, refl, refl, (StrMap.set key (some next) staged, refl))

run_edit-Overlays : (e : Edit) (s : State) → IsStaged s → Overlays s (run_edit e s)
unfolding run_edit write_scope apply_delta detach_ids remove_scope stage abort_apply
run_edit-Overlays (write key next) s h = commit-Overlays key next none s h
run_edit-Overlays (append key entries ids) s h = commit-Overlays key _ _ s h
run_edit-Overlays (detach key ids) s h = commit-Overlays key _ none s h
run_edit-Overlays (drop_scope key) s (staged, e) =
    rw (e, remove_scope) (stage key none staged s, refl, refl, (StrMap.set key none staged, refl))

run_edits-Overlays : (es : List Edit) (s : State) → IsStaged s → Overlays s (run_edits es s)
unfolding run_edits
run_edits-Overlays [] s (staged, e) = (s, refl, refl, (staged, e))
run_edits-Overlays (edit ∷ es) s h =
    let (s1, e1, same1, h1) = run_edit-Overlays edit s h in
    let (s2, e2, same2, h2) = run_edits-Overlays es s1 h1 in
    (s2, rw (e1, run_edits) e2, same2 ∙ same1, h2)

begin_apply-IsStaged : (s s1 : State) → begin_apply s ≡ some s1 → IsStaged s1 × (abort_apply s1 ≡ s)
unfolding begin_apply abort_apply
begin_apply-IsStaged s s1 h = elim (Option-cases s.staged_scopes) [
  | inr (staged, e) ↦
      let gone : begin_apply s ≡ none = rw (e, begin_apply) refl in
      let clash : none ≡ some s1 = sym gone ∙ h in absurd (ground arith)
  | inl e ↦
      let is_some : begin_apply s ≡ some (record s { staged_scopes = some [] }) =
        rw (e, begin_apply) refl in
      let s1_is : record s { staged_scopes = some [] } ≡ s1 = ground (arith, sym is_some ∙ h) in
      (([], ap (λ x. x.staged_scopes) (sym s1_is)), ap abort_apply (sym s1_is) ∙ rw (sym e) refl)
]

-- After a `beginApply` that is allowed, every list of writes, deltas, detaches and removals
-- returns, and `abortApply` then gives exactly the state before the `beginApply`.
pub abort_apply-run_edits :
    (es : List Edit) (s s1 : State)
    → begin_apply s ≡ some s1
    → (s2 : State) × (run_edits es s1 ≡ some s2) × (abort_apply s2 ≡ s)
abort_apply-run_edits es s s1 h =
    let (staged, same) = begin_apply-IsStaged s s1 h in
    let (s2, e, back, more) = run_edits-Overlays es s1 staged in (s2, e, back ∙ same)
