-- ===== src/Relations/Matrix.antt =====
-- The origin matrix of `deriveEffects` in src/core/relations.ts: which rows bring counters and
-- cascades.
use react_native_dblayer.Base.{
  ℕ, zero, suc, Bool, true, false, not, Option, List, [], ◌∷◌, ◌++◌, ◌≡◌, refl, arith, every, keep,
  inl, inr, Bool-cases,
}
use react_native_dblayer.Base.Str.{Str}
use react_native_dblayer.Base.StrMap
use react_native_dblayer.Base.StrMap.{StrMap}
use react_native_dblayer.Base.StrSet
use react_native_dblayer.Base.StrSet.{StrSet}
use react_native_dblayer.Base.Value.{Value}
use react_native_dblayer.Where.Filter.{Row}
use react_native_dblayer.CompositeKey.{composite_key}
use react_native_dblayer.Envelope.Types.{WriteOp, patch, scope_delta, AcceptedRow, DestroyedRow}
use react_native_dblayer.Relations.Types.{RelationHost, RelationPlanReader, TouchEntry}
use react_native_dblayer.Relations.Pending.{MembershipEntry}
use react_native_dblayer.Relations.Effects.{Plan, push}
use react_native_dblayer.Relations.Derive.{
  authoritative_rows, placement_ids, is_settled, drain, unplaced, delta_of, membership_ops, is_kept,
  gather, flush_patch, flush_touches, derive_effects,
}
use react_native_dblayer.Base.{every-append, every-keep, every-snoc}
use react_native_dblayer.Relations.Gathers.{IsQuiet, is_event, gather-keeps}

-- A touch or a change of membership.
unfoldable pub is_quiet_op : WriteOp → Bool
is_quiet_op (patch p) = true
is_quiet_op (scope_delta d) = true
is_quiet_op _ = false

all_quiet : Plan → Bool
all_quiet plan = every is_quiet_op plan.queue

quiet-IsQuiet : IsQuiet (λ plan. all_quiet plan ≡ true)
unfolding all_quiet
quiet-IsQuiet = record {
  views = λ plan entries h. h;
  joins = λ plan model deltas h. h;
  detaches = λ plan model i deltas h. h;
}

flush_patch-quiet :
    (entry : TouchEntry) (row : Row) (plan : Plan)
    → all_quiet plan ≡ true
    → all_quiet (flush_patch entry row plan) ≡ true
unfolding flush_patch push all_quiet is_quiet_op
flush_patch-quiet entry [] plan h = h
flush_patch-quiet entry (field ∷ fields) plan h =
    elim (Bool-cases (StrSet.has (composite_key (entry.model ∷ entry.id ∷ [])) plan.touched)) [
      | inl t ↦ rw t h
      | inr f ↦ rw f (every-snoc is_quiet_op plan.queue _ h refl)
    ]

flush_touches-quiet :
    (entries : List TouchEntry) (plan : Plan)
    → all_quiet plan ≡ true
    → all_quiet (flush_touches entries plan) ≡ true
unfolding flush_touches
flush_touches-quiet [] plan h = h
flush_touches-quiet (entry ∷ entries) plan h =
    flush_touches-quiet entries _ (flush_patch-quiet entry entry.patch plan h)

drain-quiet :
    (rounds : ℕ) (out : List WriteOp) (plan : Plan)
    → every is_quiet_op out ≡ true
    → all_quiet plan ≡ true
    → every is_quiet_op ((drain rounds out plan).0) ≡ true
unfolding drain all_quiet every
drain-quiet zero out plan o h = o
drain-quiet (suc rounds) out plan o h = elim (Bool-cases (is_settled plan)) [
  | inl t ↦ rw t o
  | inr f ↦ rw f (
      drain-quiet rounds (out ++ plan.queue) _
        (ground (arith, every-append is_quiet_op out plan.queue))
        (flush_touches-quiet (StrMap.values plan.touch_views) _ refl))
]

delta_of-quiet :
    (entry : MembershipEntry) (append detach : List Str)
    → every is_quiet_op (delta_of entry append detach) ≡ true
unfolding delta_of is_quiet_op every
delta_of-quiet entry [] [] = refl
delta_of-quiet entry [] (d ∷ ds) = refl
delta_of-quiet entry (a ∷ more) ds = refl

membership_ops-quiet :
    (placements : StrMap StrSet) (entries : List MembershipEntry)
    → every is_quiet_op (membership_ops placements entries) ≡ true
unfolding membership_ops every
membership_ops-quiet placements [] = refl
membership_ops-quiet placements (entry ∷ entries) =
    let append =
      keep (unplaced (StrMap.get (composite_key (entry.model ∷ entry.scope_key ∷ [])) placements))
        entry.append in
    ground (
      arith,
      every-append is_quiet_op (delta_of entry append entry.detach)
          (membership_ops placements entries),
      delta_of-quiet entry append entry.detach,
      membership_ops-quiet placements entries,
    )

-- When no accepted row is an event and every destroyed row is the leg of a replace, the effects are
-- patches and scope deltas alone: no counter moves and nothing is destroyed in cascade.
pub derive_effects-quiet :
    (text_of : Value → Str) (hosts : Str → Option RelationHost) (reader : RelationPlanReader)
    (accepted : List AcceptedRow) (destroyed : List DestroyedRow) (raw_ops : List WriteOp)
    → every (λ row. not (is_event row.origin)) accepted ≡ true
    → every (λ row. row.is_replace) destroyed ≡ true
    → every is_quiet_op (derive_effects text_of hosts reader accepted destroyed raw_ops) ≡ true
unfolding derive_effects all_quiet every
derive_effects-quiet text_of hosts reader accepted destroyed raw_ops a d =
    let plan = gather text_of hosts reader accepted destroyed raw_ops in
    let quiet : all_quiet plan ≡ true =
      gather-keeps text_of hosts reader (λ p. all_quiet p ≡ true) quiet-IsQuiet accepted destroyed
        raw_ops (inr (a, d)) refl in
    every-keep is_quiet_op (is_kept (authoritative_rows accepted [])) _ (
      ground (
        arith,
        drain-quiet 2 [] plan refl quiet,
        membership_ops-quiet (placement_ids raw_ops []) (StrMap.values plan.membership),
        every-append is_quiet_op ((drain 2 [] plan).0)
            (membership_ops (placement_ids raw_ops []) (StrMap.values plan.membership)),
      ))
