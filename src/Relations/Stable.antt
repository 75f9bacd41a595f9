-- ===== src/Relations/Stable.antt =====
-- What every effect of one row keeps: a property of the plan that survives its elementary changes.
use react_native_dblayer.Base.{Bool, true, false, Option, none, some, List, [], ◌∷◌, if◌then◌else◌}
use react_native_dblayer.Base.Str.{Str}
use react_native_dblayer.Base.StrMap
use react_native_dblayer.Base.StrMap.{StrMap}
use react_native_dblayer.Base.StrSet
use react_native_dblayer.Base.StrSet.{StrSet}
use react_native_dblayer.Base.Value.{ℤ, Value}
use react_native_dblayer.CompositeKey.{composite_key}
use react_native_dblayer.Where.Filter.{Row}
use react_native_dblayer.Envelope.Types.{CounterRef, Destroy, counter, destroy}
use react_native_dblayer.Relations.Types.{
  CounterCache, BelongsTo, RelationDecl, belongs_to, has_many, has_one, refers_to, RelationHost,
  RelationPlanReader, TouchEntry,
}
use react_native_dblayer.Relations.Effects.{
  Plan, push, parent_id_of, accumulate_touch, touch_with, count_once, count_child, upsert_effect,
  upsert_effects, touch_effect, replace_effects, uncount, destroy_counter, push_destroy,
  destroy_effect, destroy_all, destroy_effects,
}

-- The changes of counters, of cascades and of the marks of destroyed rows.
pub record IsStable {ℓ} (P : Plan → Type ℓ) : Type ℓ where
  pub counts_up :
      (plan : Plan) (ref : CounterRef) (delta : ℤ) → P plan → P (push (counter ref delta) plan)
  pub cascades : (plan : Plan) (op : Destroy) → P plan → P (push (destroy op) plan)
  pub remembers :
      (plan : Plan) (counted : StrMap CounterRef) → P plan → P record plan { counted = counted }
  pub marks : (plan : Plan) (destroyed : StrSet) → P plan → P record plan { destroyed = destroyed }

module _ {ℓ} (text_of : Value → Str) (reader : RelationPlanReader) (authoritative : StrSet)
    (replaced_ids : StrMap StrSet) (P : Plan → Type ℓ)
    (views : (plan : Plan) (entries : StrMap TouchEntry)
      → P plan
      → P record plan { touch_views = entries }) where
  touch_with-keeps :
      (touch : Row → Row → StrSet → Option Row) (model : Str) (child : Row) (key : Str)
      (entry : Option TouchEntry) (plan : Plan)
      → P plan
      → P (touch_with text_of reader authoritative replaced_ids touch model child key entry plan)
  unfolding touch_with
  touch_with-keeps touch model child key none plan p = p
  touch_with-keeps touch model child key (some entry) plan p = views plan _ p

  if-keeps : (b : Bool) (x y : Plan) → P x → P y → P (if b then x else y)
  if-keeps true x y p q = p
  if-keeps false x y p q = q

  option-keeps :
      {A : Type 0} (o : Option A) (x : Plan) (f : A → Plan)
      → P x
      → ((a : A) → P (f a))
      → P (elim o [ none ↦ x | some a ↦ f a ])
  option-keeps none x f p q = p
  option-keeps (some a) x f p q = q a

  accumulate_touch-keeps :
      (relation : BelongsTo) (model : Str) (child : Row) (parent_id : Str) (plan : Plan)
      → P plan
      → P (
          accumulate_touch text_of reader authoritative replaced_ids relation model child parent_id
            plan)
  unfolding accumulate_touch
  accumulate_touch-keeps relation model child parent_id plan p =
      option-keeps (relation.touch) _ _ p
        (λ touch. if-keeps _ _ _ p (touch_with-keeps touch model child _ _ plan p))

  touch_effect-keeps :
      (model : Str) (row : Row) (relation : RelationDecl) (plan : Plan)
      → P plan
      → P (touch_effect text_of reader authoritative replaced_ids model row relation plan)
  unfolding touch_effect
  touch_effect-keeps model row (belongs_to relation) plan p =
      option-keeps (parent_id_of row relation.foreign_key) _ _ p
        (λ parent_id. accumulate_touch-keeps relation model row parent_id plan p)
  touch_effect-keeps model row (has_many relation) plan p = p
  touch_effect-keeps model row (has_one relation) plan p = p
  touch_effect-keeps model row (refers_to relation) plan p = p

  pub replace_effects-keeps :
      (model : Str) (row : Row) (relations : List RelationDecl) (plan : Plan)
      → P plan
      → P (replace_effects text_of reader authoritative replaced_ids model row relations plan)
  unfolding replace_effects
  replace_effects-keeps model row [] plan p = p
  replace_effects-keeps model row (relation ∷ relations) plan p =
      replace_effects-keeps model row relations _ (touch_effect-keeps model row relation plan p)

  module _ (stable : IsStable P) where
    count_once-keeps :
        (key : Str) (ref : CounterRef) (plan : Plan)
        → P plan
        → P (count_once text_of reader authoritative replaced_ids key ref plan)
    unfolding count_once
    count_once-keeps key ref plan p =
        option-keeps ((StrMap.get key plan.counted)) _ _
          (stable.counts_up _ ref _ (stable.remembers plan _ p)) (λ _. p)

    count_child-keeps :
        (model : Str) (relation : BelongsTo) (row : Row) (existed : Bool) (parent_id : Str)
        (plan : Plan)
        → P plan
        → P (
            count_child text_of reader authoritative replaced_ids model relation row existed
              parent_id plan)
    unfolding count_child
    count_child-keeps model relation row existed parent_id plan p =
        option-keeps (relation.counter_cache) _ _ p
          (λ cache. if-keeps _ _ _ (count_once-keeps _ _ plan p) p)

    upsert_effect-keeps :
        (model : Str) (row : Row) (existed : Bool) (relation : RelationDecl) (plan : Plan)
        → P plan
        → P (
            upsert_effect text_of reader authoritative replaced_ids model row existed relation plan)
    unfolding upsert_effect
    upsert_effect-keeps model row existed (belongs_to relation) plan p =
        option-keeps (parent_id_of row relation.foreign_key) _ _ p (λ parent_id.
          accumulate_touch-keeps relation model row parent_id _
            (count_child-keeps model relation row existed parent_id plan p))
    upsert_effect-keeps model row existed (has_many relation) plan p = p
    upsert_effect-keeps model row existed (has_one relation) plan p = p
    upsert_effect-keeps model row existed (refers_to relation) plan p = p

    pub upsert_effects-keeps :
        (model : Str) (row : Row) (existed : Bool) (relations : List RelationDecl) (plan : Plan)
        → P plan
        → P (
            upsert_effects text_of reader authoritative replaced_ids model row existed relations
              plan)
    unfolding upsert_effects
    upsert_effects-keeps model row existed [] plan p = p
    upsert_effects-keeps model row existed (relation ∷ relations) plan p =
        upsert_effects-keeps model row existed relations _
          (upsert_effect-keeps model row existed relation plan p)

    uncount-keeps :
        (key : Str) (ref : CounterRef) (cache : CounterCache) (row : Row) (plan : Plan)
        → P plan
        → P (uncount text_of reader authoritative replaced_ids key ref cache row plan)
    unfolding uncount
    uncount-keeps key ref cache row plan p =
        option-keeps ((StrMap.get key plan.counted)) _ _
          (if-keeps _ _ _ (stable.counts_up plan ref _ p) p)
          (λ pending. stable.counts_up _ pending _ (stable.remembers plan _ p))

    destroy_counter-keeps :
        (model id : Str) (row : Row) (relation : BelongsTo) (plan : Plan)
        → P plan
        → P (destroy_counter text_of reader authoritative replaced_ids model id row relation plan)
    unfolding destroy_counter
    destroy_counter-keeps model id row relation plan p =
        option-keeps relation.counter_cache _ _ p (λ cache.
          option-keeps (parent_id_of row relation.foreign_key) _ _ p
            (λ parent_id. uncount-keeps _ _ cache row plan p))

    push_destroy-keeps :
        (model : Str) (ids : List Str) (plan : Plan)
        → P plan
        → P (push_destroy text_of reader authoritative replaced_ids model ids plan)
    unfolding push_destroy
    push_destroy-keeps model [] plan p = p
    push_destroy-keeps model (id ∷ ids) plan p = stable.cascades plan _ p

    destroy_effect-keeps :
        (model id : Str) (row : Row) (relation : RelationDecl) (plan : Plan)
        → P plan
        → P (destroy_effect text_of reader authoritative replaced_ids model id row relation plan)
    unfolding destroy_effect
    destroy_effect-keeps model id row (belongs_to relation) plan p =
        destroy_counter-keeps model id row relation plan p
    destroy_effect-keeps model id row (has_many relation) plan p =
        if-keeps _ _ _ (push_destroy-keeps _ _ plan p) p
    destroy_effect-keeps model id row (has_one relation) plan p = p
    destroy_effect-keeps model id row (refers_to relation) plan p = p

    destroy_all-keeps :
        (model id : Str) (row : Row) (relations : List RelationDecl) (plan : Plan)
        → P plan
        → P (destroy_all text_of reader authoritative replaced_ids model id row relations plan)
    unfolding destroy_all
    destroy_all-keeps model id row [] plan p = p
    destroy_all-keeps model id row (relation ∷ relations) plan p =
        destroy_all-keeps model id row relations _
          (destroy_effect-keeps model id row relation plan p)

    pub destroy_effects-keeps :
        (host : Option RelationHost) (model id : Str) (row : Row) (plan : Plan)
        → P plan
        → P (destroy_effects text_of reader authoritative replaced_ids host model id row plan)
    unfolding destroy_effects
    destroy_effects-keeps none model id row plan p = if-keeps _ _ _ p (stable.marks plan _ p)
    destroy_effects-keeps (some host) model id row plan p =
        if-keeps (StrSet.has (composite_key (model ∷ id ∷ [])) plan.destroyed) _ _ p (
          destroy_all-keeps model id row (StrMap.values host.relations) _
            (stable.marks plan (StrSet.add (composite_key (model ∷ id ∷ [])) plan.destroyed) p))
