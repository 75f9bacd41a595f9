-- ===== src/Ledger/Durable.antt =====
-- What `prepareTransitions` writes before a commit is what the live ledger holds after it.
use react_native_dblayer.Base.{
  suc, ◌≡◌, refl, sym, subst, ◌∙◌, ap, Option, none, some, List, [], ◌∷◌, ◌++◌, Option-cases, inl,
  inr,
}
use react_native_dblayer.Base.StrMap
use react_native_dblayer.Base.StrMap.{StrMap}
use react_native_dblayer.Ledger.Types.{OperationRecord, OperationTransition}
use react_native_dblayer.Ledger.Transition.{Applied, apply_transition}
use react_native_dblayer.Ledger.State.{State, Saved}
use react_native_dblayer.Ledger.Methods.{
  apply_one, land, apply_transitions, persist_entries, prepare_transitions, project, take_before,
  unmark_hydrated, transition_id,
}
use react_native_dblayer.Ledger.OnceKeys.{KeepsOnceKeys, apply_transition-KeepsOnceKeys}
use react_native_dblayer.Ledger.Soundness.{
  take_before-saved, Agrees, reindex-Agrees, IsSound, apply_transition-IsSound,
  unmark_hydrated-saved,
}

land-Agrees :
    (t : OperationTransition) (s : State)
    → KeepsOnceKeys s.operations s.committed_keys
    → (let result = apply_transition s.next_ref s.operations s.committed_keys t in
        Agrees
          (land t (StrMap.get (transition_id t) s.operations) s).0
          (suc s.next_ref)
          result.records
          result.once_keys
          s.stored)
unfolding land
land-Agrees t s h =
    let result : Applied = apply_transition s.next_ref s.operations s.committed_keys t in
    let sound : IsSound (transition_id t) s.committed_keys result =
      apply_transition-IsSound s.next_ref s.operations s.committed_keys t in
    let kept : KeepsOnceKeys result.records result.once_keys =
      apply_transition-KeepsOnceKeys s.next_ref s.operations s.committed_keys t h in
    let moved : State = record s {
      operations = result.records;
      committed_keys = result.once_keys;
      next_ref = suc s.next_ref;
    } in
    let saved = unmark_hydrated-saved t result moved in
    let same : (unmark_hydrated t result moved).committed_keys ≡ result.once_keys = saved.1 in
    let agrees =
      reindex-Agrees (StrMap.get (transition_id t) s.operations) result.previous result.next
        (unmark_hydrated t result moved)
        (λ e found key r k. rw same (sound.grows key (h.at (transition_id t) e found key r k)))
        (λ e new key r k. rw same (kept.at (transition_id t) e (sound.stands e new) key r k)) in
    record {
      operations = agrees.operations ∙ saved.0;
      committed = agrees.committed ∙ saved.1;
      ref_is = agrees.ref_is ∙ saved.2;
      stored_is = agrees.stored_is ∙ saved.3;
    }

record_of-some : {A : Type 0} {a b : A} → some a ≡ some b → a ≡ b
record_of-some h = cc

apply_one-Agrees :
    (t : OperationTransition) (s s' : State) (notes : List OperationRecord)
    → KeepsOnceKeys s.operations s.committed_keys
    → apply_one t s ≡ some (s', notes)
    → (let result = apply_transition s.next_ref s.operations s.committed_keys t in
        Agrees s' (suc s.next_ref) result.records result.once_keys s.stored)
unfolding apply_one
apply_one-Agrees t s s' notes h e =
    elim (Option-cases (take_before (StrMap.get (transition_id t) s.operations) s)) [
      | inl stuck ↦
          let is_none : apply_one t s ≡ none = rw (stuck, apply_one) refl in
          let gone : none ≡ some (s', notes) = sym is_none ∙ e in cc
      | inr (u, went) ↦
          let before = StrMap.get (transition_id t) s.operations in
          let is_some : apply_one t s ≡ some (land t before u) = rw (went, apply_one) refl in
          let landed : land t before u ≡ (s', notes) = record_of-some (sym is_some ∙ e) in
          let s'_is : (land t before u).0 ≡ s' = ap (λ p. p.0) landed in
          let saved = take_before-saved before s u went in
          subst
            (λ x.
              let result = apply_transition s.next_ref s.operations s.committed_keys t in
              Agrees x (suc s.next_ref) result.records result.once_keys s.stored)
            s'_is (landed-from t s u saved h)
    ]
  where
    landed-from :
        (t : OperationTransition) (s u : State)
        → (u.operations ≡ s.operations)
          × (u.committed_keys ≡ s.committed_keys)
          × (u.next_ref ≡ s.next_ref)
          × (u.stored ≡ s.stored)
        → KeepsOnceKeys s.operations s.committed_keys
        → (let result = apply_transition s.next_ref s.operations s.committed_keys t in
            Agrees
              (land t (StrMap.get (transition_id t) s.operations) u).0
              (suc s.next_ref)
              result.records
              result.once_keys
              s.stored)
    landed-from t s u (ops, keys, ref, stored) h =
        let h' : KeepsOnceKeys u.operations u.committed_keys = rw (ops, keys) h in
        rw (sym ops, sym keys, sym ref, sym stored) (land-Agrees t u h')

-- The state of a run of changes, beside their projection on copies.
pub record RunAgrees (s : State) (result : Applied) (saved : Option Saved) : Type 0 where
  pub operations : s.operations ≡ result.records
  committed : s.committed_keys ≡ result.once_keys
  stored_is : s.stored ≡ saved

pub apply_transitions-RunAgrees :
    (ts : List OperationTransition) (s s' : State) (notes : List OperationRecord)
    → KeepsOnceKeys s.operations s.committed_keys
    → apply_transitions ts s ≡ some (s', notes)
    → RunAgrees s' (project ts s.next_ref s.operations s.committed_keys) s.stored
      × KeepsOnceKeys s'.operations s'.committed_keys
unfolding apply_transitions project
apply_transitions-RunAgrees [] s s' notes h e =
    let same : s ≡ s' = ap (λ p. p.0) (record_of-some e) in
    rw (sym same) (record { operations = refl; committed = refl; stored_is = refl }, h)
apply_transitions-RunAgrees (t ∷ ts) s s' notes h e = elim (Option-cases (apply_one t s)) [
  | inl stuck ↦
      let is_none : apply_transitions (t ∷ ts) s ≡ none = rw (stuck, apply_transitions) refl in
      let gone : none ≡ some (s', notes) = sym is_none ∙ e in cc
  | inr ((u, n), went) ↦ elim (Option-cases (apply_transitions ts u)) [
    | inl stuck ↦
        let is_none : apply_transitions (t ∷ ts) s ≡ none =
          rw (went, apply_transitions) (rw (stuck, apply_transitions) refl) in
        let gone : none ≡ some (s', notes) = sym is_none ∙ e in cc
    | inr ((v, more), rest) ↦
        let is_some : apply_transitions (t ∷ ts) s ≡ some (v, n ++ more) =
          rw (went, apply_transitions) (rw (rest, apply_transitions) refl) in
        let same : v ≡ s' = ap (λ p. p.0) (record_of-some (sym is_some ∙ e)) in
        let one = apply_one-Agrees t s u n h went in
        let kept : KeepsOnceKeys u.operations u.committed_keys =
          rw (one.operations, one.committed)
            (apply_transition-KeepsOnceKeys s.next_ref s.operations s.committed_keys t h) in
        let (agrees, kept') = apply_transitions-RunAgrees ts u v more kept rest in
        let result = apply_transition s.next_ref s.operations s.committed_keys t in
        let projected : project ts u.next_ref u.operations u.committed_keys
            ≡ project ts (suc s.next_ref) result.records result.once_keys =
          rw (one.ref_is, one.operations, one.committed) refl in
        rw (sym same) (
          record {
            operations = agrees.operations ∙ ap (λ r. r.records) projected;
            committed = agrees.committed ∙ ap (λ r. r.once_keys) projected;
            stored_is = agrees.stored_is ∙ one.stored_is;
          },
          kept',
        )
  ]
]

-- Where the committed keys hold the key of every committed `once` operation: if a list of
-- transitions applies to the live ledger, what `prepareTransitions` would have written before it
-- is exactly what `persistEntries` would write after it, storage is as it was, and the keys of
-- the committed `once` operations are still held.
pub prepare_transitions-apply_transitions :
    (ts : List OperationTransition) (s s' : State) (notes : List OperationRecord)
    → KeepsOnceKeys s.operations s.committed_keys
    → apply_transitions ts s ≡ some (s', notes)
    → (persist_entries s' ≡ prepare_transitions ts s)
      × (s'.stored ≡ s.stored)
      × KeepsOnceKeys s'.operations s'.committed_keys
unfolding persist_entries prepare_transitions
prepare_transitions-apply_transitions ts s s' notes h e =
    let (agrees, kept) = apply_transitions-RunAgrees ts s s' notes h e in
    (rw (agrees.operations, agrees.committed, agrees.stored_is) refl, agrees.stored_is, kept)
