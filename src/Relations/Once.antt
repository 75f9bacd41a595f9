-- ===== src/Relations/Once.antt =====
-- The final loop of `deriveEffects` in src/core/relations.ts: its end, and one patch for a parent.
use react_native_dblayer.Base.{
  ℕ, zero, suc, ◌+◌, Bool, true, ◌&&◌, not, Option, none, List, [], ◌∷◌, ◌++◌, ◌≡◌, refl, ◌∙◌,
  arith, if◌then◌else◌, leb, ◌≤◌, keep, inl, inr, Bool-cases,
}
use react_native_dblayer.Base.Str.{Str, str_eq, str_eq_iff}
use react_native_dblayer.Base.StrMap
use react_native_dblayer.Base.StrMap.{StrMap}
use react_native_dblayer.Base.StrSet
use react_native_dblayer.Base.StrSet.{StrSet}
use react_native_dblayer.Base.Value.{Value}
use react_native_dblayer.Where.Filter.{Row}
use react_native_dblayer.CompositeKey.{composite_key}
use react_native_dblayer.Envelope.Types.{
  WriteOp, upsert, patch, destroy, scope, scope_delta, counter, AcceptedRow, DestroyedRow,
}
use react_native_dblayer.Relations.Types.{RelationHost, RelationPlanReader, TouchEntry}
use react_native_dblayer.Relations.Pending.{MembershipEntry}
use react_native_dblayer.Relations.Effects.{Plan, push}
use react_native_dblayer.Relations.Stable.{IsStable}
use react_native_dblayer.Relations.Derive.{
  authoritative_rows, placement_ids, is_settled, drain, unplaced, delta_of, membership_ops, is_kept,
  gather, flush_patch, flush_touches, derive_effects,
}
use react_native_dblayer.Relations.Gathers.{IsQuiet, gather-keeps}

flush_patch-views :
    (entry : TouchEntry) (row : Row) (plan : Plan)
    → (flush_patch entry row plan).touch_views ≡ plan.touch_views
unfolding flush_patch push
flush_patch-views entry [] plan = refl
flush_patch-views entry (field ∷ fields) plan =
    elim (Bool-cases (StrSet.has (composite_key (entry.model ∷ entry.id ∷ [])) plan.touched)) [
      | inl t ↦ rw t refl
      | inr f ↦ rw f refl
    ]

flush_touches-views :
    (entries : List TouchEntry) (plan : Plan)
    → (flush_touches entries plan).touch_views ≡ plan.touch_views
unfolding flush_touches
flush_touches-views [] plan = refl
flush_touches-views (entry ∷ entries) plan =
    flush_touches-views entries _ ∙ flush_patch-views entry entry.patch plan

drain-done :
    (rounds : ℕ) (out : List WriteOp) (plan : Plan)
    → is_settled plan ≡ true
    → drain rounds out plan ≡ (out, plan)
unfolding drain
drain-done zero out plan h = refl
drain-done (suc rounds) out plan h = rw h refl

-- The patches for the parent with the key.
unfoldable pub patch_count : Str → List WriteOp → ℕ
patch_count key [] = 0
patch_count key (patch p ∷ ops) =
    let rest = patch_count key ops in
    if str_eq (composite_key (p.model ∷ p.id ∷ [])) key then suc rest else rest
patch_count key (_ ∷ ops) = patch_count key ops

module _ (key : Str) where
  patch_count-append :
      (xs ys : List WriteOp) → patch_count key (xs ++ ys) ≡ patch_count key xs + patch_count key ys
  unfolding patch_count
  patch_count-append [] ys = omega arith
  patch_count-append (patch p ∷ xs) ys = ground (arith, patch_count-append xs ys)
  patch_count-append (upsert u ∷ xs) ys = patch_count-append xs ys
  patch_count-append (destroy d ∷ xs) ys = patch_count-append xs ys
  patch_count-append (scope s ∷ xs) ys = patch_count-append xs ys
  patch_count-append (scope_delta d ∷ xs) ys = patch_count-append xs ys
  patch_count-append (counter c d ∷ xs) ys = patch_count-append xs ys

  patch_count-keep :
      (p : WriteOp → Bool) (xs : List WriteOp) → patch_count key (keep p xs) ≤ patch_count key xs
  unfolding patch_count keep
  patch_count-keep p [] = omega arith
  patch_count-keep p (patch q ∷ xs) = ground (arith, patch_count-keep p xs)
  patch_count-keep p (upsert u ∷ xs) = ground (arith, patch_count-keep p xs)
  patch_count-keep p (destroy d ∷ xs) = ground (arith, patch_count-keep p xs)
  patch_count-keep p (scope s ∷ xs) = ground (arith, patch_count-keep p xs)
  patch_count-keep p (scope_delta d ∷ xs) = ground (arith, patch_count-keep p xs)
  patch_count-keep p (counter c d ∷ xs) = ground (arith, patch_count-keep p xs)

  delta_of-no_patch :
      (entry : MembershipEntry) (append detach : List Str)
      → patch_count key (delta_of entry append detach) ≡ 0
  unfolding delta_of patch_count
  delta_of-no_patch entry [] [] = refl
  delta_of-no_patch entry [] (d ∷ ds) = refl
  delta_of-no_patch entry (a ∷ more) ds = refl

  membership_ops-no_patch :
      (placements : StrMap StrSet) (entries : List MembershipEntry)
      → patch_count key (membership_ops placements entries) ≡ 0
  unfolding membership_ops patch_count
  membership_ops-no_patch placements [] = refl
  membership_ops-no_patch placements (entry ∷ entries) =
      let append =
        keep (unplaced (StrMap.get (composite_key (entry.model ∷ entry.scope_key ∷ [])) placements))
          entry.append in
      omega (
        arith,
        patch_count-append (delta_of entry append entry.detach) (membership_ops placements entries),
        delta_of-no_patch entry append entry.detach,
        membership_ops-no_patch placements entries,
      )

  -- No patch is in the queue and no parent is marked.
  unfoldable is_fresh : Plan → Bool
  is_fresh plan = leb (patch_count key plan.queue) 0 && not (StrSet.has key plan.touched)

  fresh-IsStable : IsStable (λ plan. is_fresh plan ≡ true)
  unfolding is_fresh patch_count push
  fresh-IsStable = record {
    counts_up =
        λ plan ref delta h. ground (arith, patch_count-append plan.queue (counter ref delta ∷ []));
    cascades = λ plan op h. ground (arith, patch_count-append plan.queue (destroy op ∷ []));
    remembers = λ plan counted h. h;
    marks = λ plan destroyed h. h;
  }

  fresh-IsQuiet : IsQuiet (λ plan. is_fresh plan ≡ true)
  unfolding is_fresh
  fresh-IsQuiet = record {
    views = λ plan entries h. h;
    joins = λ plan model deltas h. h;
    detaches = λ plan model i deltas h. h;
  }

  -- At most one patch is queued, and none unless its parent is marked.
  is_once : Plan → Bool
  is_once plan = leb (patch_count key plan.queue) (if StrSet.has key plan.touched then 1 else 0)

  flush_patch-once :
      (entry : TouchEntry) (row : Row) (plan : Plan)
      → is_once plan ≡ true
      → is_once (flush_patch entry row plan) ≡ true
  unfolding flush_patch push is_once patch_count
  flush_patch-once entry [] plan h = h
  flush_patch-once entry (field ∷ fields) plan h =
      let parent = composite_key (entry.model ∷ entry.id ∷ []) in
      elim (Bool-cases (StrSet.has parent plan.touched)) [
        | inl t ↦ rw t h
        | inr f ↦ rw f (
            ground (
              arith,
              StrSet.has-add parent key plan.touched,
              str_eq_iff parent key,
              patch_count-append plan.queue (
                  patch record {
                    model = entry.model;
                    id = entry.id;
                    patch = entry.patch;
                    remove = none;
                    operation_id = none;
                    base_revision = none;
                  }
                  ∷ []),
            ))
      ]

  flush_touches-once :
      (entries : List TouchEntry) (plan : Plan)
      → is_once plan ≡ true
      → is_once (flush_touches entries plan) ≡ true
  unfolding flush_touches
  flush_touches-once [] plan h = h
  flush_touches-once (entry ∷ entries) plan h =
      flush_touches-once entries _ (flush_patch-once entry entry.patch plan h)

  drain-once : (plan : Plan) → is_fresh plan ≡ true → patch_count key ((drain 2 [] plan).0) ≤ 1
  unfolding drain is_fresh is_once patch_count
  drain-once plan h =
      let emptied = record plan { queue = []; touch_views = [] } in
      let next = flush_touches (StrMap.values plan.touch_views) emptied in
      elim (Bool-cases (is_settled plan)) [
        | inl t ↦ rw t (omega arith)
        | inr f ↦ rw f (elim (Bool-cases (is_settled next)) [
          | inl t ↦ rw t (ground arith)
          | inr g ↦ rw g (
              ground (
                arith,
                flush_touches-once (StrMap.values plan.touch_views) emptied,
                patch_count-append plan.queue next.queue,
              ))
        ])
      ]

  -- The effects hold at most one patch for a parent, however many children touch it and through
  -- however many relations.
  pub derive_effects-one_patch :
      (text_of : Value → Str) (hosts : Str → Option RelationHost) (reader : RelationPlanReader)
      (accepted : List AcceptedRow) (destroyed : List DestroyedRow) (raw_ops : List WriteOp)
      → patch_count key (derive_effects text_of hosts reader accepted destroyed raw_ops) ≤ 1
  unfolding derive_effects is_fresh patch_count StrSet.has
  derive_effects-one_patch text_of hosts reader accepted destroyed raw_ops =
      let plan = gather text_of hosts reader accepted destroyed raw_ops in
      let fresh : is_fresh plan ≡ true =
        gather-keeps text_of hosts reader (λ p. is_fresh p ≡ true) fresh-IsQuiet accepted destroyed
          raw_ops (inl fresh-IsStable) refl in
      let scopes = membership_ops (placement_ids raw_ops []) (StrMap.values plan.membership) in
      omega (
        arith,
        drain-once plan fresh,
        patch_count-append ((drain 2 [] plan).0) scopes,
        membership_ops-no_patch (placement_ids raw_ops []) (StrMap.values plan.membership),
        patch_count-keep (is_kept (authoritative_rows accepted [])) ((drain 2 [] plan).0 ++ scopes),
      )

flushed-settled :
    (plan : Plan)
    → plan.touch_views ≡ []
    → is_settled (
        flush_touches (StrMap.values plan.touch_views) record plan { queue = []; touch_views = [] })
      ≡ true
unfolding flush_touches StrMap.values
flushed-settled plan h = rw h refl

-- The final loop ends after two rounds at most: the plan that it leaves has an empty queue and no
-- touches, and more rounds give the same.
pub drain-ends :
    (more : ℕ) (out : List WriteOp) (plan : Plan)
    → (is_settled ((drain 2 out plan).1) ≡ true)
      × (drain (suc (suc more)) out plan ≡ drain 2 out plan)
unfolding drain
drain-ends more out plan =
    let emptied = record plan { queue = []; touch_views = [] } in
    let next = flush_touches (StrMap.values plan.touch_views) emptied in
    let views : next.touch_views ≡ [] =
      flush_touches-views (StrMap.values plan.touch_views) emptied in
    elim (Bool-cases (is_settled plan)) [
      | inl t ↦ rw t (t, refl)
      | inr f ↦ rw f (elim (Bool-cases (is_settled next)) [
        | inl t ↦ rw t (t, refl)
        | inr g ↦ rw g (let done = flushed-settled next views in (done, drain-done more _ _ done))
      ])
    ]
