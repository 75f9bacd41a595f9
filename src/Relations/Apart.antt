-- ===== src/Relations/Apart.antt =====
-- No derived scope delta of `deriveEffects` in src/core/relations.ts appends and detaches one id.
use react_native_dblayer.Base.{
  every-append, every-keep, every-snoc, ℕ, zero, suc, Bool, true, ◌&&◌, not, Option, List, [], ◌∷◌,
  ◌++◌, ◌≡◌, refl, arith, every, any, keep, map, inl, inr, Bool-cases,
}
use react_native_dblayer.Base.Str.{Str}
use react_native_dblayer.Base.StrMap
use react_native_dblayer.Base.StrMap.{StrMap}
use react_native_dblayer.Base.StrSet
use react_native_dblayer.Base.StrSet.{StrSet}
use react_native_dblayer.Base.Value.{Value}
use react_native_dblayer.Where.Filter.{Row}
use react_native_dblayer.CompositeKey.{composite_key}
use react_native_dblayer.Envelope.Types.{WriteOp, destroy, counter, AcceptedRow, DestroyedRow}
use react_native_dblayer.Relations.Types.{RelationHost, RelationPlanReader, TouchEntry}
use react_native_dblayer.Relations.Pending.{MembershipEntry, accumulate_membership}
use react_native_dblayer.Relations.Effects.{Plan, push}
use react_native_dblayer.Relations.Stable.{IsStable}
use react_native_dblayer.Relations.Derive.{
  authoritative_rows, placement_ids, is_settled, drain, unplaced, keyless, delta_of, membership_ops,
  is_kept, gather, flush_patch, flush_touches, derive_effects,
}
use react_native_dblayer.Relations.Gathers.{IsQuiet, gather-keeps}
use react_native_dblayer.Relations.Separate.{
  appends, is_separate, is_apart, accumulate-apart, detached-apart,
}

module _ (id : Str) where
  are_apart : Plan → Bool
  are_apart plan =
      every (is_apart id) (StrMap.values plan.membership) && every (is_separate id) plan.queue

  pushed-apart :
      (op : WriteOp) (plan : Plan)
      → is_separate id op ≡ true
      → are_apart plan ≡ true
      → are_apart (push op plan) ≡ true
  unfolding push are_apart every
  pushed-apart op plan s h = ground (arith, every-append (is_separate id) plan.queue (op ∷ []))

  apart-IsStable : IsStable (λ plan. are_apart plan ≡ true)
  unfolding are_apart is_separate
  apart-IsStable = record {
    counts_up = λ plan ref delta h. pushed-apart (counter ref delta) plan refl h;
    cascades = λ plan op h. pushed-apart (destroy op) plan refl h;
    remembers = λ plan counted h. h;
    marks = λ plan destroyed h. h;
  }

  apart-IsQuiet : IsQuiet (λ plan. are_apart plan ≡ true)
  unfolding are_apart
  apart-IsQuiet = record {
    views = λ plan entries h. h;
    joins = λ plan model deltas h. ground (arith, accumulate-apart id model deltas plan.membership);
    detaches = λ plan model i deltas h. ground (
      arith,
      accumulate-apart id model deltas plan.membership,
      detached-apart id model i (accumulate_membership model deltas plan.membership),
    );
  }

  flush_patch-apart :
      (entry : TouchEntry) (row : Row) (plan : Plan)
      → every (is_separate id) plan.queue ≡ true
      → every (is_separate id) ((flush_patch entry row plan).queue) ≡ true
  unfolding flush_patch push is_separate every
  flush_patch-apart entry [] plan h = h
  flush_patch-apart entry (field ∷ fields) plan h =
      elim (Bool-cases (StrSet.has (composite_key (entry.model ∷ entry.id ∷ [])) plan.touched)) [
        | inl t ↦ rw t h
        | inr f ↦ rw f (every-snoc (is_separate id) plan.queue _ h refl)
      ]

  flush_touches-apart :
      (entries : List TouchEntry) (plan : Plan)
      → every (is_separate id) plan.queue ≡ true
      → every (is_separate id) ((flush_touches entries plan).queue) ≡ true
  unfolding flush_touches
  flush_touches-apart [] plan h = h
  flush_touches-apart (entry ∷ entries) plan h =
      flush_touches-apart entries _ (flush_patch-apart entry entry.patch plan h)

  drain-apart :
      (rounds : ℕ) (out : List WriteOp) (plan : Plan)
      → every (is_separate id) out ≡ true
      → every (is_separate id) plan.queue ≡ true
      → every (is_separate id) ((drain rounds out plan).0) ≡ true
  unfolding drain every
  drain-apart zero out plan o h = o
  drain-apart (suc rounds) out plan o h = elim (Bool-cases (is_settled plan)) [
    | inl t ↦ rw t o
    | inr f ↦ rw f (
        drain-apart rounds (out ++ plan.queue) _
          (ground (arith, every-append (is_separate id) out plan.queue))
          (flush_touches-apart (StrMap.values plan.touch_views) _ refl))
  ]

  appends-keyless : (ids : List Str) → any (appends id) (map keyless ids) ≡ StrSet.has id ids
  unfolding any StrSet.has
  appends-keyless [] = refl
  appends-keyless (i ∷ ids) = ground (arith, appends-keyless ids)

  has-keep :
      (p : Str → Bool) (ids : List Str)
      → StrSet.has id (keep p ids) ≡ true
      → StrSet.has id ids ≡ true
  unfolding keep StrSet.has
  has-keep p [] h = h
  has-keep p (i ∷ ids) h = ground (arith, has-keep p ids)

  delta_of-separate :
      (entry : MembershipEntry) (append detach : List Str)
      → not (StrSet.has id append && StrSet.has id detach) ≡ true
      → every (is_separate id) (delta_of entry append detach) ≡ true
  unfolding delta_of is_separate every
  delta_of-separate entry [] [] h = refl
  delta_of-separate entry [] (d ∷ ds) h = ground (arith, appends-keyless [])
  delta_of-separate entry (a ∷ as') ds h = ground (arith, appends-keyless (a ∷ as'))

  membership_ops-separate :
      (placements : StrMap StrSet) (entries : List MembershipEntry)
      → every (is_apart id) entries ≡ true
      → every (is_separate id) (membership_ops placements entries) ≡ true
  unfolding membership_ops every is_apart
  membership_ops-separate placements [] h = refl
  membership_ops-separate placements (entry ∷ entries) h = ground (
    arith,
    every-append (is_separate id)
        (delta_of entry
          (keep
            (unplaced (StrMap.get (composite_key (entry.model ∷ entry.scope_key ∷ [])) placements))
            entry.append)
          entry.detach)
        (membership_ops placements entries),
    membership_ops-separate placements entries,
    delta_of-separate entry
        (keep
          (unplaced (StrMap.get (composite_key (entry.model ∷ entry.scope_key ∷ [])) placements))
          entry.append)
        entry.detach,
    has-keep (unplaced (StrMap.get (composite_key (entry.model ∷ entry.scope_key ∷ [])) placements))
        entry.append,
  )

  -- Whatever rows, relations and membership hooks, no derived scope delta both appends an id and
  -- detaches it.
  pub derive_effects-separate :
      (text_of : Value → Str) (hosts : Str → Option RelationHost) (reader : RelationPlanReader)
      (accepted : List AcceptedRow) (destroyed : List DestroyedRow) (raw_ops : List WriteOp)
      → every (is_separate id) (derive_effects text_of hosts reader accepted destroyed raw_ops)
        ≡ true
  unfolding derive_effects are_apart every StrMap.values
  derive_effects-separate text_of hosts reader accepted destroyed raw_ops =
      let plan = gather text_of hosts reader accepted destroyed raw_ops in
      let apart : are_apart plan ≡ true =
        gather-keeps text_of hosts reader (λ p. are_apart p ≡ true) apart-IsQuiet accepted destroyed
          raw_ops (inl apart-IsStable) refl in
      every-keep (is_separate id) (is_kept (authoritative_rows accepted [])) _ (
        ground (
          arith,
          apart,
          drain-apart 2 [] plan refl,
          membership_ops-separate (placement_ids raw_ops []) (StrMap.values plan.membership),
          every-append (is_separate id) ((drain 2 [] plan).0)
              (membership_ops (placement_ids raw_ops []) (StrMap.values plan.membership)),
        ))
