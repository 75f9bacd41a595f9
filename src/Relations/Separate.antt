-- ===== src/Relations/Separate.antt =====
-- The membership that a plan of src/core/relations.ts accumulates keeps its two lists of ids apart.
use react_native_dblayer.Base.{
  Bool, true, ◌&&◌, not, some, List, [], ◌∷◌, ◌≡◌, refl, arith, every, any, inl, inr, Option-cases,
}
use react_native_dblayer.Base.Str.{Str, str_eq}
use react_native_dblayer.Base.StrMap
use react_native_dblayer.Base.StrMap.{StrMap}
use react_native_dblayer.Base.StrSet
use react_native_dblayer.Base.StrSet.{StrSet}
use react_native_dblayer.Scope.Entry.{IncomingScopeRow}
use react_native_dblayer.CompositeKey.{composite_key}
use react_native_dblayer.Envelope.Types.{WriteOp, scope_delta}
use react_native_dblayer.Relations.Types.{MembershipDelta}
use react_native_dblayer.Relations.Pending.{
  MembershipEntry, Membership, append_ids, detach_ids, entry_for, accumulate_delta,
  accumulate_membership, detach_from, detach_accumulated_membership,
}

abbrev pub appends : Str → IncomingScopeRow → Bool
appends id row = str_eq row.id id

-- The operation is not a scope delta that appends and detaches the id.
unfoldable pub is_separate : Str → WriteOp → Bool
is_separate id (scope_delta delta) =
    not (any (appends id) delta.append && StrSet.has id delta.detach)
is_separate id _ = true

module _ (id : Str) where
  unfoldable pub is_apart : MembershipEntry → Bool
  is_apart entry = not (StrSet.has id entry.append && StrSet.has id entry.detach)

  pub append_ids-apart :
      (ids : List Str) (entry : MembershipEntry)
      → is_apart entry ≡ true
      → is_apart (append_ids ids entry) ≡ true
  unfolding append_ids is_apart
  append_ids-apart [] entry h = h
  append_ids-apart (i ∷ ids) entry h =
      append_ids-apart ids _
        (ground (arith, StrSet.has-add i id entry.append, StrSet.has-delete i id entry.detach))

  pub detach_ids-apart :
      (ids : List Str) (entry : MembershipEntry)
      → is_apart entry ≡ true
      → is_apart (detach_ids ids entry) ≡ true
  unfolding detach_ids is_apart
  detach_ids-apart [] entry h = h
  detach_ids-apart (i ∷ ids) entry h =
      detach_ids-apart ids _
        (ground (arith, StrSet.has-add i id entry.detach, StrSet.has-delete i id entry.append))

  pub detach_from-apart :
      (model i : Str) (entry : MembershipEntry)
      → is_apart entry ≡ true
      → is_apart (detach_from model i entry) ≡ true
  unfolding detach_from is_apart
  detach_from-apart model i entry h =
      ground (arith, StrSet.has-add i id entry.detach, StrSet.has-delete i id entry.append)

  pub get-apart :
      (key : Str) (membership : Membership) (entry : MembershipEntry)
      → every is_apart (StrMap.values membership) ≡ true
      → StrMap.get key membership ≡ some entry
      → is_apart entry ≡ true
  unfolding every StrMap.values StrMap.get
  get-apart key [] entry h e = absurd (ground arith)
  get-apart key ((k, v) ∷ membership) entry h e = ground (arith, get-apart key membership entry)

  pub set-apart :
      (key : Str) (entry : MembershipEntry) (membership : Membership)
      → every is_apart (StrMap.values membership) ≡ true
      → is_apart entry ≡ true
      → every is_apart (StrMap.values (StrMap.set key entry membership)) ≡ true
  unfolding every StrMap.values StrMap.set
  set-apart key entry [] h e = ground arith
  set-apart key entry ((k, v) ∷ membership) h e = ground (arith, set-apart key entry membership)

  pub entry_for-apart :
      (model scope_key key : Str) (membership : Membership)
      → every is_apart (StrMap.values membership) ≡ true
      → is_apart (entry_for model scope_key (StrMap.get key membership)) ≡ true
  unfolding entry_for is_apart StrSet.has
  entry_for-apart model scope_key key membership h =
      elim (Option-cases (StrMap.get key membership)) [
        | inl n ↦ rw n refl
        | inr (entry, e) ↦ rw e (get-apart key membership entry h e)
      ]

  pub accumulate-apart :
      (model : Str) (deltas : List MembershipDelta) (membership : Membership)
      → every is_apart (StrMap.values membership) ≡ true
      → every is_apart (StrMap.values (accumulate_membership model deltas membership)) ≡ true
  unfolding accumulate_membership accumulate_delta
  accumulate-apart model [] membership h = h
  accumulate-apart model (delta ∷ deltas) membership h = accumulate-apart model deltas _ (
      set-apart _ _ membership h (
        detach_ids-apart delta.detach _ (
          append_ids-apart delta.append _ (
            entry_for-apart model delta.scope_key (composite_key (model ∷ delta.scope_key ∷ []))
              membership h))))

  pub detached-apart :
      (model i : Str) (membership : Membership)
      → every is_apart (StrMap.values membership) ≡ true
      → every is_apart (StrMap.values (detach_accumulated_membership model i membership)) ≡ true
  unfolding every StrMap.values detach_accumulated_membership
  detached-apart model i [] h = refl
  detached-apart model i ((key, entry) ∷ membership) h =
      ground (arith, detach_from-apart model i entry, detached-apart model i membership)
