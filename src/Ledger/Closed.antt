-- ===== src/Ledger/Closed.antt =====
-- Closed operations: no transition but a new `begin` changes them, and `prune` takes only them.
use react_native_dblayer.Base.{
  ℕ, suc, ◌≡◌, sym, ◌∙◌, true, false, Option, none, some, List, [], ◌∷◌, arith, Bool-cases,
  Option-cases, inl, inr, ◌⊎◌,
}
use react_native_dblayer.Base.Str.{Str, str_eq, str_eq_iff}
use react_native_dblayer.Base.StrSet.{StrSet}
use react_native_dblayer.Base.StrMap
use react_native_dblayer.Base.StrMap.{StrMap}
use react_native_dblayer.Ledger.Types.{
  OperationStatus, OperationRecord, OperationTransition, begin, close, remove, status_eq, pending,
}
use react_native_dblayer.Ledger.Transition.{
  close_found, remove_found, mismatches, Entry, apply_transition,
}
use react_native_dblayer.Ledger.State.{State}
use react_native_dblayer.Ledger.Methods.{apply_transitions, project}
use react_native_dblayer.Ledger.OnceKeys.{KeepsOnceKeys}
use react_native_dblayer.Ledger.Durable.{RunAgrees, apply_transitions-RunAgrees}

-- A `begin` of another operation, a `close` or a `remove`.
abbrev pub BeginsOther : Str → OperationTransition → Type 0
BeginsOther id (begin operation) = str_eq operation.operation_id id ≡ false
BeginsOther id _ = true ≡ true

-- The entry under an id is the one given, or there is none.
abbrev pub IsSameOrGone : Str → Entry → StrMap Entry → Type 0
IsSameOrGone id e records = (StrMap.get id records ≡ some e) ⊎ (StrMap.get id records ≡ none)

close_found-closed :
    (ref : ℕ) (status : OperationStatus) (at id : Str) (records : StrMap Entry) (keys : StrSet)
    (p e : Entry)
    → StrMap.get at records ≡ some p
    → StrMap.get id records ≡ some e
    → status_eq e.operation.status pending ≡ false
    → IsSameOrGone id e (close_found ref status at records keys p).records
unfolding close_found
close_found-closed ref status at id records keys p e hp he closed =
    elim (Bool-cases (status_eq p.operation.status pending)) [
      | inr other ↦ rw (other, close_found) (inl he)
      | inl unresolved ↦
          rw (unresolved, close_found)
            (elim (Bool-cases (str_eq at id)) [
              | inr apart ↦ inl (StrMap.get-set at id _ records ∙ rw apart he)
              | inl same ↦
                  let both : at ≡ id = (str_eq_iff at id).0 same in
                  let p_is : some p ≡ some e = sym hp ∙ (rw both he) in
                  let clash : true ≡ false = sym unresolved ∙ (grind arith) ∙ closed in cc
            ])
    ]

remove_found-gone :
    (expected : Option OperationStatus) (at id : Str) (records : StrMap Entry) (keys : StrSet)
    (p e : Entry)
    → StrMap.get id records ≡ some e
    → IsSameOrGone id e (remove_found expected at records keys p).records
unfolding remove_found
remove_found-gone expected at id records keys p e he =
    let deleted = StrMap.get-delete at id records in
    elim (Bool-cases (mismatches expected p.operation.status)) [
      | inl other ↦ rw (other, remove_found) (inl he)
      | inr same ↦
          rw (same, remove_found)
            (elim (Bool-cases (str_eq at id)) [
              | inl both ↦ inr (deleted ∙ rw both)
              | inr apart ↦ inl (deleted ∙ rw apart he)
            ])
    ]

closed-apply_transition :
    (ref : ℕ) (records : StrMap Entry) (keys : StrSet) (t : OperationTransition) (id : Str)
    (e : Entry)
    → BeginsOther id t
    → status_eq e.operation.status pending ≡ false
    → StrMap.get id records ≡ some e
    → IsSameOrGone id e (apply_transition ref records keys t).records
unfolding apply_transition
closed-apply_transition ref records keys (begin r) id e other closed he =
    inl (StrMap.get-set r.operation_id id _ records ∙ rw other he)
closed-apply_transition ref records keys (close at status) id e other closed he =
    elim (Option-cases (StrMap.get at records)) [
      | inl none_at ↦ rw (none_at, apply_transition) (inl he)
      | inr (p, hp) ↦
          rw (hp, apply_transition)
            (close_found-closed ref status at id records keys p e hp he closed)
    ]
closed-apply_transition ref records keys (remove at expected) id e other closed he =
    elim (Option-cases (StrMap.get at records)) [
      | inl none_at ↦ rw (none_at, apply_transition) (inl he)
      | inr (p, hp) ↦
          rw (hp, apply_transition) (remove_found-gone expected at id records keys p e he)
    ]

gone-apply_transition :
    (ref : ℕ) (records : StrMap Entry) (keys : StrSet) (t : OperationTransition) (id : Str)
    → BeginsOther id t
    → StrMap.get id records ≡ none
    → StrMap.get id (apply_transition ref records keys t).records ≡ none
unfolding apply_transition
gone-apply_transition ref records keys (begin r) id other h =
    StrMap.get-set r.operation_id id _ records ∙ rw other h
gone-apply_transition ref records keys (close at status) id other h =
    elim (Option-cases (StrMap.get at records)) [
      | inl none_at ↦ rw (none_at, apply_transition) h
      | inr (p, hp) ↦
          rw (hp, apply_transition)
            (elim (Bool-cases (status_eq p.operation.status pending)) [
              | inr done ↦ rw (done, close_found) h
              | inl unresolved ↦
                  rw (unresolved, close_found)
                    (elim (Bool-cases (str_eq at id)) [
                      | inr apart ↦ StrMap.get-set at id _ records ∙ rw apart h
                      | inl same ↦
                          let both : at ≡ id = (str_eq_iff at id).0 same in
                          let clash : some p ≡ none = sym hp ∙ (rw both h) in cc
                    ])
            ])
    ]
gone-apply_transition ref records keys (remove at expected) id other h =
    elim (Option-cases (StrMap.get at records)) [
      | inl none_at ↦ rw (none_at, apply_transition) h
      | inr (p, hp) ↦
          rw (hp, apply_transition)
            (elim (Bool-cases (mismatches expected p.operation.status)) [
              | inl stays ↦ rw (stays, remove_found) h
              | inr goes ↦
                  rw (goes, remove_found)
                    (elim (Bool-cases (str_eq at id)) [
                      | inr apart ↦ StrMap.get-delete at id records ∙ rw apart h
                      | inl same ↦ StrMap.get-delete at id records ∙ rw same
                    ])
            ])
    ]

-- Every transition of the list is a `begin` of another operation, a `close` or a `remove`.
abbrev pub AllBeginOther : Str → List OperationTransition → Type 0
AllBeginOther id [] = true ≡ true
AllBeginOther id (t ∷ ts) = BeginsOther id t × AllBeginOther id ts

gone-project :
    (ts : List OperationTransition) (ref : ℕ) (records : StrMap Entry) (keys : StrSet) (id : Str)
    → AllBeginOther id ts
    → StrMap.get id records ≡ none
    → StrMap.get id (project ts ref records keys).records ≡ none
unfolding project
gone-project [] ref records keys id other h = h
gone-project (t ∷ ts) ref records keys id (other, others) h =
    let result = apply_transition ref records keys t in
    gone-project ts (suc ref) result.records result.once_keys id others
      (gone-apply_transition ref records keys t id other h)

pub closed-project :
    (ts : List OperationTransition) (ref : ℕ) (records : StrMap Entry) (keys : StrSet) (id : Str)
    (e : Entry)
    → AllBeginOther id ts
    → status_eq e.operation.status pending ≡ false
    → StrMap.get id records ≡ some e
    → IsSameOrGone id e (project ts ref records keys).records
unfolding project
closed-project [] ref records keys id e other closed h = inl h
closed-project (t ∷ ts) ref records keys id e (other, others) closed h =
    let result = apply_transition ref records keys t in
    elim (closed-apply_transition ref records keys t id e other closed h) [
      | inl same ↦
          closed-project ts (suc ref) result.records result.once_keys id e others closed same
      | inr gone ↦ inr (gone-project ts (suc ref) result.records result.once_keys id others gone)
    ]

-- Where the committed keys hold the key of every committed `once` operation, after any list of
-- transitions that applies and does not `begin` the id of a closed operation, that id holds the very
-- same record object or nothing: none of the other transitions reopens or alters it.
pub closed-apply_transitions :
    (ts : List OperationTransition) (s s' : State) (notes : List OperationRecord) (id : Str)
    (e : Entry)
    → KeepsOnceKeys s.operations s.committed_keys
    → apply_transitions ts s ≡ some (s', notes)
    → AllBeginOther id ts
    → status_eq e.operation.status pending ≡ false
    → StrMap.get id s.operations ≡ some e
    → (StrMap.get id s'.operations ≡ some e) ⊎ (StrMap.get id s'.operations ≡ none)
closed-apply_transitions ts s s' notes id e h ran others closed found =
    let agrees : RunAgrees s' (project ts s.next_ref s.operations s.committed_keys) s.stored =
      (apply_transitions-RunAgrees ts s s' notes h ran).0 in
    rw (agrees.operations)
      (closed-project ts s.next_ref s.operations s.committed_keys id e others closed found)
