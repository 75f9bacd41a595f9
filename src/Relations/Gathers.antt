-- ===== src/Relations/Gathers.antt =====
-- A property of the plan that every effect of one row keeps holds of the plan of all rows.
use react_native_dblayer.Base.{
  Bool, true, false, Option, none, some, List, [], ◌∷◌, ◌≡◌, refl, if◌then◌else◌, every, not, arith,
  ◌⊎◌, inl, inr,
}
use react_native_dblayer.Base.Str.{Str}
use react_native_dblayer.Base.StrMap.{StrMap}
use react_native_dblayer.Base.StrMap
use react_native_dblayer.Base.StrSet.{StrSet}
use react_native_dblayer.Base.StrSet
use react_native_dblayer.Base.Value.{Value}
use react_native_dblayer.Envelope.Types.{
  RowOrigin, event, replace, WriteOp, AcceptedRow, DestroyedRow,
}
use react_native_dblayer.Relations.Types.{
  MembershipDelta, RelationDecl, RelationHost, RelationPlanReader, TouchEntry,
}
use react_native_dblayer.Relations.Pending.{accumulate_membership, detach_accumulated_membership}
use react_native_dblayer.Relations.Effects.{Plan}
use react_native_dblayer.Relations.Stable.{
  IsStable, replace_effects-keeps, upsert_effects-keeps, destroy_effects-keeps,
}
use react_native_dblayer.Relations.Derive.{
  authoritative_rows, explicit_scope_models, replaced_ids_by_model, accept_effects, accept_row,
  accept_rows, destroy_row, destroy_rows, gather, empty_plan,
}

abbrev pub is_event : Option RowOrigin → Bool
is_event (some event) = true
is_event _ = false

-- What the changes of touches and of membership keep.
pub record IsQuiet {ℓ} (P : Plan → Type ℓ) : Type ℓ where
  pub views :
      (plan : Plan) (entries : StrMap TouchEntry) → P plan → P record plan { touch_views = entries }
  pub joins :
      (plan : Plan) (model : Str) (deltas : List MembershipDelta)
      → P plan
      → P record plan { membership = accumulate_membership model deltas plan.membership }
  pub detaches :
      (plan : Plan) (model id : Str) (deltas : List MembershipDelta)
      → P plan
      → P record plan {
        membership =
            detach_accumulated_membership model id
              (accumulate_membership model deltas plan.membership);
      }

module _ {ℓ} (text_of : Value → Str) (hosts : Str → Option RelationHost)
    (reader : RelationPlanReader) (P : Plan → Type ℓ) (quiet : IsQuiet P) where
  either-keeps : (b : Bool) (x y : Plan) → P x → P y → P (if b then x else y)
  either-keeps true x y p q = p
  either-keeps false x y p q = q

  option-keeps :
      {A : Type 0} (o : Option A) (x : Plan) (f : A → Plan)
      → P x
      → ((a : A) → P (f a))
      → P (elim o [ none ↦ x | some a ↦ f a ])
  option-keeps none x f p q = p
  option-keeps (some a) x f p q = q a

  replaced-keeps : (b : Bool) (x y : Plan) → P x → (b ≡ false → P y) → P (if b then x else y)
  replaced-keeps true x y p q = p
  replaced-keeps false x y p q = q refl

  -- The effects with counters and cascades are stable, or there are none.
  module _ (authoritative : StrSet) (replaced : StrMap StrSet) (explicit : StrSet) where
    joined :
        (row : AcceptedRow) (host : RelationHost) (plan : Plan)
        → P plan
        → P (
            if StrSet.has row.model explicit then plan else record plan {
              membership =
                  accumulate_membership row.model
                    (host.membership_for_upsert row.before row.after)
                    plan.membership;
            })
    joined row host plan p =
        either-keeps (StrSet.has row.model explicit) _ _ p (quiet.joins plan row.model _ p)

    accept_effects-keeps :
        (row : AcceptedRow) (relations : List RelationDecl) (origin : Option RowOrigin)
        (plan : Plan)
        → IsStable P ⊎ (is_event origin ≡ false)
        → P plan
        → P (accept_effects text_of hosts reader authoritative replaced row relations origin plan)
    unfolding accept_effects
    accept_effects-keeps row relations none plan s p = p
    accept_effects-keeps row relations (some event) plan (inl stable) p =
        upsert_effects-keeps text_of reader authoritative replaced P quiet.views stable row.model
          row.after _ relations plan p
    accept_effects-keeps row relations (some event) plan (inr h) p = absurd (ground arith)
    accept_effects-keeps row relations (some replace) plan s p =
        replace_effects-keeps text_of reader authoritative replaced P quiet.views row.model
          row.after relations plan p

    accept_rows-keeps :
        (rows : List AcceptedRow) (plan : Plan)
        → IsStable P ⊎ (every (λ row. not (is_event row.origin)) rows ≡ true)
        → P plan
        → P (accept_rows text_of hosts reader authoritative replaced explicit rows plan)
    unfolding accept_rows accept_row every
    accept_rows-keeps [] plan s p = p
    accept_rows-keeps (row ∷ rows) plan s p =
        accept_rows-keeps rows _ (elim s [ inl stable ↦ inl stable | inr h ↦ inr (ground arith) ])
          (option-keeps (hosts row.model) _ _ p (λ host.
            accept_effects-keeps row (StrMap.values host.relations) row.origin _
              (elim s [ inl stable ↦ inl stable | inr h ↦ inr (ground arith) ])
              (joined row host plan p)))

    destroy_row-keeps :
        (row : DestroyedRow) (plan : Plan)
        → IsStable P ⊎ (row.is_replace ≡ true)
        → P plan
        → P (destroy_row text_of hosts reader authoritative replaced row plan)
    unfolding destroy_row
    destroy_row-keeps row plan s p =
        replaced-keeps row.is_replace _ _ (quiet.detaches plan row.model row.id _ p) (λ r. elim s [
          | inl stable ↦
              destroy_effects-keeps text_of reader authoritative replaced P quiet.views stable
                (hosts row.model) row.model row.id row.before _
                (quiet.detaches plan row.model row.id _ p)
          | inr h ↦ absurd (ground arith)
        ])

    destroy_rows-keeps :
        (rows : List DestroyedRow) (plan : Plan)
        → IsStable P ⊎ (every (λ row. row.is_replace) rows ≡ true)
        → P plan
        → P (destroy_rows text_of hosts reader authoritative replaced rows plan)
    unfolding destroy_rows every
    destroy_rows-keeps [] plan s p = p
    destroy_rows-keeps (row ∷ rows) plan s p =
        destroy_rows-keeps rows _ (elim s [ inl stable ↦ inl stable | inr h ↦ inr (ground arith) ])
          (destroy_row-keeps row plan
            (elim s [ inl stable ↦ inl stable | inr h ↦ inr (ground arith) ]) p)

  -- Counters and cascades come from events and ordinary destroys alone.
  pub gather-keeps :
      (accepted : List AcceptedRow) (destroyed : List DestroyedRow) (raw_ops : List WriteOp)
      → IsStable P
        ⊎ ((every (λ row. not (is_event row.origin)) accepted ≡ true)
            × (every (λ row. row.is_replace) destroyed ≡ true))
      → P empty_plan
      → P (gather text_of hosts reader accepted destroyed raw_ops)
  unfolding gather
  gather-keeps accepted destroyed raw_ops s p =
      destroy_rows-keeps (authoritative_rows accepted []) (replaced_ids_by_model destroyed []) []
        destroyed _ (elim s [ inl stable ↦ inl stable | inr (a, d) ↦ inr d ])
        (accept_rows-keeps (authoritative_rows accepted []) (replaced_ids_by_model destroyed [])
          (explicit_scope_models raw_ops []) accepted empty_plan
          (elim s [ inl stable ↦ inl stable | inr (a, d) ↦ inr a ]) p)
