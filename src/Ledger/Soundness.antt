-- ===== src/Ledger/Soundness.antt =====
-- What a round of `applyTransitions` does to the maps that are saved.
use react_native_dblayer.Base.{
  ℕ, ◌≡◌, refl, ◌∙◌, Bool, true, false, Option, none, some, arith, Bool-cases, Option-cases, inl,
  inr,
}
use react_native_dblayer.Base.Str.{Str, str_eq_refl}
use react_native_dblayer.Base.StrSet
use react_native_dblayer.Base.StrSet.{StrSet}
use react_native_dblayer.Base.StrMap
use react_native_dblayer.Base.StrMap.{StrMap}
use react_native_dblayer.Ledger.Types.{
  OperationStatus, OperationTransition, begin, close, remove, status_eq, pending,
}
use react_native_dblayer.Ledger.Transition.{
  add_once_key, close_found, remove_found, mismatches, Entry, Applied, apply_transition,
}
use react_native_dblayer.Ledger.State.{State, Saved, index_record, unindex_record}
use react_native_dblayer.Ledger.Methods.{reindex, take_before, unmark_hydrated, transition_id}
use react_native_dblayer.Ledger.OnceKeys.{KeyIsKept, index_committed_key-kept}

-- What a transition does to the maps that are saved, unindexing and reindexing included.
pub unindex_record-saved :
    (e : Entry) (s s' : State)
    → unindex_record e s ≡ some s'
    → (s'.operations ≡ s.operations)
      × (s'.committed_keys ≡ s.committed_keys)
      × (s'.next_ref ≡ s.next_ref)
      × (s'.stored ≡ s.stored)
unfolding unindex_record
unindex_record-saved e s s' h = ground arith

pub take_before-saved :
    (o : Option Entry) (s s' : State)
    → take_before o s ≡ some s'
    → (s'.operations ≡ s.operations)
      × (s'.committed_keys ≡ s.committed_keys)
      × (s'.next_ref ≡ s.next_ref)
      × (s'.stored ≡ s.stored)
unfolding take_before
take_before-saved none s s' h = ground arith
take_before-saved (some e) s s' h = unindex_record-saved e s s' h

-- Where a live state and the projection of the same changes agree.
pub record Agrees (s : State) (ref : ℕ) (records : StrMap Entry) (keys : StrSet)
    (saved : Option Saved) : Type 0 where
  pub operations : s.operations ≡ records
  pub committed : s.committed_keys ≡ keys
  pub ref_is : s.next_ref ≡ ref
  pub stored_is : s.stored ≡ saved

pub reindex-Agrees :
    (before previous next : Option Entry) (s : State)
    → ((e : Entry) → before ≡ some e → KeyIsKept e.operation s.committed_keys)
    → ((e : Entry) → next ≡ some e → KeyIsKept e.operation s.committed_keys)
    → Agrees (reindex before previous next s) s.next_ref s.operations s.committed_keys s.stored
unfolding reindex index_record
reindex-Agrees before previous (some next) s hb hn = record {
  operations = refl;
  committed = index_committed_key-kept next.operation s.committed_keys (hn next refl);
  ref_is = refl;
  stored_is = refl;
}
reindex-Agrees (some e) none none s hb hn = record {
  operations = refl;
  committed = index_committed_key-kept e.operation s.committed_keys (hb e refl);
  ref_is = refl;
  stored_is = refl;
}
reindex-Agrees (some e) (some p) none s hb hn = record {
  operations = refl;
  committed = refl;
  ref_is = refl;
  stored_is = refl;
}
reindex-Agrees none previous none s hb hn = record {
  operations = refl;
  committed = refl;
  ref_is = refl;
  stored_is = refl;
}

-- What a change does with its own record and with the keys: the new record stands under its id,
-- and no key goes.
pub record IsSound (id : Str) (keys : StrSet) (result : Applied) : Type 0 where
  pub stands : (e : Entry) → result.next ≡ some e → StrMap.get id result.records ≡ some e
  pub grows : (key : Str) → StrSet.has key keys ≡ true → StrSet.has key result.once_keys ≡ true

pub get-set_self :
    (id : Str) (e : Entry) (records : StrMap Entry)
    → StrMap.get id (StrMap.set id e records) ≡ some e
get-set_self id e records = StrMap.get-set id id e records ∙ rw (str_eq_refl id)

pub add_once_key-grows :
    (b : Bool) (o : Option Str) (keys : StrSet) (key : Str)
    → StrSet.has key keys ≡ true
    → StrSet.has key (add_once_key b o keys) ≡ true
unfolding add_once_key
add_once_key-grows true none keys key h = h
add_once_key-grows true (some k) keys key h = ground (arith, StrSet.has-add k key keys)
add_once_key-grows false o keys key h = h

pub close_found-IsSound :
    (ref : ℕ) (status : OperationStatus) (id : Str) (records : StrMap Entry) (keys : StrSet)
    (p : Entry)
    → IsSound id keys (close_found ref status id records keys p)
unfolding close_found
close_found-IsSound ref status id records keys p =
    elim (Bool-cases (status_eq p.operation.status pending)) [
      | inr other ↦ rw (other, close_found) (record { stands = λ e h. cc; grows = λ key h. h })
      | inl unresolved ↦
          rw (unresolved, close_found)
            (record {
              stands = λ e h. get-set_self id _ records ∙ h;
              grows = λ key h. add_once_key-grows _ _ keys key h;
            })
    ]

pub remove_found-IsSound :
    (expected : Option OperationStatus) (id : Str) (records : StrMap Entry) (keys : StrSet)
    (p : Entry)
    → IsSound id keys (remove_found expected id records keys p)
unfolding remove_found
remove_found-IsSound expected id records keys p =
    elim (Bool-cases (mismatches expected p.operation.status)) [
      | inl other ↦ rw (other, remove_found) (record { stands = λ e h. cc; grows = λ key h. h })
      | inr same ↦ rw (same, remove_found) (record { stands = λ e h. cc; grows = λ key h. h })
    ]

pub apply_transition-IsSound :
    (ref : ℕ) (records : StrMap Entry) (keys : StrSet) (t : OperationTransition)
    → IsSound (transition_id t) keys (apply_transition ref records keys t)
unfolding apply_transition transition_id
apply_transition-IsSound ref records keys (begin r) = record {
  stands = λ e h. get-set_self r.operation_id _ records ∙ h;
  grows = λ key h. h;
}
apply_transition-IsSound ref records keys (close id status) =
    elim (Option-cases (StrMap.get id records)) [
      | inl e ↦ rw (e, apply_transition) (record { stands = λ x h. cc; grows = λ key h. h })
      | inr (p, e) ↦ rw (e, apply_transition) (close_found-IsSound ref status id records keys p)
    ]
apply_transition-IsSound ref records keys (remove id expected) =
    elim (Option-cases (StrMap.get id records)) [
      | inl e ↦ rw (e, apply_transition) (record { stands = λ x h. cc; grows = λ key h. h })
      | inr (p, e) ↦ rw (e, apply_transition) (remove_found-IsSound expected id records keys p)
    ]

pub unmark_hydrated-saved :
    (t : OperationTransition) (result : Applied) (s : State)
    → ((unmark_hydrated t result s).operations ≡ s.operations)
      × ((unmark_hydrated t result s).committed_keys ≡ s.committed_keys)
      × ((unmark_hydrated t result s).next_ref ≡ s.next_ref)
      × ((unmark_hydrated t result s).stored ≡ s.stored)
unfolding unmark_hydrated
unmark_hydrated-saved t result s = ground arith
