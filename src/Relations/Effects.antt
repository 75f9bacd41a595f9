-- ===== src/Relations/Effects.antt =====
-- The effects of one accepted or destroyed row: `accumulateTouch`, `upsertEffects`,
-- `childrenByForeignKey` and `destroyEffects` of `deriveEffects` in src/core/relations.ts. The
-- counters of diagnostics are left out, and the index of children, which the code keeps for the
-- plan, is built from the same rows at each use.
use react_native_dblayer.Base.{
  Bool, true, false, ◌&&◌, ◌||◌, not, Option, none, some, List, [], ◌∷◌, ◌++◌, if◌then◌else◌, keep,
}
use react_native_dblayer.Base.Str.{Str, text}
use react_native_dblayer.Base.StrMap
use react_native_dblayer.Base.StrMap.{StrMap}
use react_native_dblayer.Base.StrSet
use react_native_dblayer.Base.StrSet.{StrSet}
use react_native_dblayer.Base.Value.{pos, negsuc, Value, str}
use react_native_dblayer.CompositeKey.{composite_key}
use react_native_dblayer.Where.Filter.{Row, read_field}
use react_native_dblayer.WritePolicies.Apply.{spread}
use react_native_dblayer.Envelope.Types.{CounterRef, WriteOp, counter, destroy}
use react_native_dblayer.Relations.Types.{
  CounterCache, BelongsTo, RelationDecl, belongs_to, has_many, RelationHost, RelationPlanReader,
  TouchEntry,
}
use react_native_dblayer.Relations.Pending.{Membership}

-- The local state of `deriveEffects`.
pub record Plan : Type 0 where
  pub queue : List WriteOp
  pub counted : StrMap CounterRef
  pub destroyed : StrSet
  pub touched : StrSet
  pub touch_views : StrMap TouchEntry
  pub membership : Membership

unfoldable pub push : WriteOp → Plan → Plan
push op plan = record plan { queue = plan.queue ++ op ∷ [] }

non_empty_text : Value → Option Str
non_empty_text (str (c ∷ s)) = some (c ∷ s)
non_empty_text _ = none

-- `parentIdOf`
unfoldable pub parent_id_of : Row → Str → Option Str
unfolding non_empty_text
parent_id_of row foreign_key = non_empty_text (read_field row foreign_key)

-- `countKeyOf`
unfoldable pub count_key_of : Str → Str → CounterRef → Str
count_key_of model child_id ref = composite_key (model ∷ child_id ∷ ref.model ∷ ref.field ∷ [])

-- `relation.counterCache.filter?.(row) ?? true`
unfoldable pub counts : CounterCache → Row → Bool
counts cache row = elim cache.filter [ none ↦ true | some filter ↦ filter row ]

counter_ref : BelongsTo → CounterCache → Str → CounterRef
counter_ref relation cache parent_id = record {
  model = relation.model.model_id;
  id = parent_id;
  field = cache.field;
}

patched_view : Option Row → TouchEntry → TouchEntry
patched_view none entry = entry
patched_view (some patch) entry = record entry {
  view = spread entry.view patch;
  patch = spread entry.patch patch;
}

-- The children of each parent, in the order of the rows.
index_children : (Value → Str) → Str → List Row → StrMap (List Str) → StrMap (List Str)
index_children text_of foreign_key [] index = index
index_children text_of foreign_key (child ∷ rows) index = elim (parent_id_of child foreign_key) [
  | none ↦ index_children text_of foreign_key rows index
  | some parent_id ↦ index_children text_of foreign_key rows (
      StrMap.set parent_id
        (elim (StrMap.get parent_id index) [ none ↦ [] | some bucket ↦ bucket ]
          ++ text_of (read_field child (text "id")) ∷ [])
        index)
]

-- `uniq`
uniq_onto : List Str → StrSet → StrSet
uniq_onto [] seen = seen
uniq_onto (id ∷ ids) seen = uniq_onto ids (StrSet.add id seen)

module _ (text_of : Value → Str) (reader : RelationPlanReader) (authoritative : StrSet)
    (replaced_ids : StrMap StrSet) where
  -- The view of the parent, read at its first touch.
  unfoldable pub touch_entry : BelongsTo → Str → Option TouchEntry → Option TouchEntry
  touch_entry relation parent_id (some entry) = some entry
  touch_entry relation parent_id none = elim (reader.read relation.model.model_id parent_id) [
    | none ↦ none
    | some parent ↦
        some record { model = relation.model.model_id; id = parent_id; view = parent; patch = [] }
  ]

  replaced_of : Str → StrSet
  replaced_of model = elim (StrMap.get model replaced_ids) [ none ↦ [] | some ids ↦ ids ]

  unfoldable pub touch_with :
      (Row → Row → StrSet → Option Row) → Str → Row → Str → Option TouchEntry → Plan → Plan
  unfolding patched_view replaced_of
  touch_with touch child_model child key none plan = plan
  touch_with touch child_model child key (some entry) plan = record plan {
    touch_views =
        StrMap.set key (patched_view (touch child entry.view (replaced_of child_model)) entry)
          plan.touch_views;
  }

  -- `accumulateTouch`
  unfoldable pub accumulate_touch : BelongsTo → Str → Row → Str → Plan → Plan
  unfolding touch_entry touch_with
  accumulate_touch relation child_model child parent_id plan = elim relation.touch [
    | none ↦ plan
    | some touch ↦
        let key = composite_key (relation.model.model_id ∷ parent_id ∷ []) in
        if StrSet.has key authoritative || StrSet.has key plan.touched
        then plan
        else touch_with touch child_model child key
            (touch_entry relation parent_id (StrMap.get key plan.touch_views)) plan
  ]

  unfoldable pub count_once : Str → CounterRef → Plan → Plan
  count_once key ref plan = elim (StrMap.get key plan.counted) [
    | some _ ↦ plan
    | none ↦ push (counter ref (pos 1)) record plan { counted = StrMap.set key ref plan.counted }
  ]

  -- The counter of a parent that a new child references.
  unfoldable pub count_child : Str → BelongsTo → Row → Bool → Str → Plan → Plan
  unfolding count_once counter_ref
  count_child model relation row existed parent_id plan = elim relation.counter_cache [
    | none ↦ plan
    | some cache ↦
        if not existed && counts cache row
        then (let ref = counter_ref relation cache parent_id in
            count_once (count_key_of model (text_of (read_field row (text "id"))) ref) ref plan)
        else plan
  ]

  unfoldable pub upsert_effect : Str → Row → Bool → RelationDecl → Plan → Plan
  unfolding count_child
  upsert_effect model row existed (belongs_to relation) plan =
      elim (parent_id_of row relation.foreign_key) [
        | none ↦ plan
        | some parent_id ↦
            accumulate_touch relation model row parent_id
              (count_child model relation row existed parent_id plan)
      ]
  upsert_effect model row existed _ plan = plan

  -- `upsertEffects`, on the relations of the host.
  unfoldable pub upsert_effects : Str → Row → Bool → List RelationDecl → Plan → Plan
  unfolding upsert_effect
  upsert_effects model row existed [] plan = plan
  upsert_effects model row existed (relation ∷ relations) plan =
      upsert_effects model row existed relations (upsert_effect model row existed relation plan)

  unfoldable pub touch_effect : Str → Row → RelationDecl → Plan → Plan
  touch_effect model row (belongs_to relation) plan = elim (parent_id_of row relation.foreign_key) [
    | none ↦ plan
    | some parent_id ↦ accumulate_touch relation model row parent_id plan
  ]
  touch_effect model row _ plan = plan

  -- The effects of a replace: touches alone.
  unfoldable pub replace_effects : Str → Row → List RelationDecl → Plan → Plan
  unfolding touch_effect
  replace_effects model row [] plan = plan
  replace_effects model row (relation ∷ relations) plan =
      replace_effects model row relations (touch_effect model row relation plan)

  -- `childrenByForeignKey`
  unfoldable pub children_by_foreign_key : Str → Str → StrMap (List Str)
  unfolding index_children
  children_by_foreign_key child_model foreign_key =
      index_children text_of foreign_key (reader.rows child_model) []

  unfoldable pub uncount : Str → CounterRef → CounterCache → Row → Plan → Plan
  uncount key ref cache row plan = elim (StrMap.get key plan.counted) [
    | some pending ↦
        push (counter pending (negsuc 0)) record plan { counted = StrMap.delete key plan.counted }
    | none ↦ if counts cache row then push (counter ref (negsuc 0)) plan else plan
  ]

  unfoldable pub destroy_counter : Str → Str → Row → BelongsTo → Plan → Plan
  unfolding uncount counter_ref
  destroy_counter model id row relation plan = elim relation.counter_cache [
    | none ↦ plan
    | some cache ↦ elim (parent_id_of row relation.foreign_key) [
      | none ↦ plan
      | some parent_id ↦
          let ref = counter_ref relation cache parent_id in
          uncount (count_key_of model id ref) ref cache row plan
    ]
  ]

  -- The live children of a parent, each once, that the plan has not destroyed.
  live_children : Str → Str → Str → StrSet → List Str
  unfolding uniq_onto
  live_children child_model foreign_key id destroyed =
      keep (λ child. not (StrSet.has (composite_key (child_model ∷ child ∷ [])) destroyed))
        (uniq_onto
          (elim (StrMap.get id (children_by_foreign_key child_model foreign_key)) [
            | none ↦ []
            | some ids ↦ ids
          ])
          [])

  unfoldable pub push_destroy : Str → List Str → Plan → Plan
  push_destroy model [] plan = plan
  push_destroy model (id ∷ ids) plan =
      push
        (destroy record {
          model = model;
          ids = id ∷ ids;
          tombstone = none;
          is_replace = false;
          replaced_by = none;
          operation_transitions = [];
          base_revision = none;
        })
        plan

  unfoldable pub destroy_effect : Str → Str → Row → RelationDecl → Plan → Plan
  unfolding destroy_counter live_children push_destroy
  destroy_effect model id row (belongs_to relation) plan =
      destroy_counter model id row relation plan
  destroy_effect model id row (has_many relation) plan =
      if relation.destroys_dependents
      then push_destroy relation.model.model_id
          (live_children relation.model.model_id relation.foreign_key id plan.destroyed) plan
      else plan
  destroy_effect model id row _ plan = plan

  unfoldable pub destroy_all : Str → Str → Row → List RelationDecl → Plan → Plan
  unfolding destroy_effect
  destroy_all model id row [] plan = plan
  destroy_all model id row (relation ∷ relations) plan =
      destroy_all model id row relations (destroy_effect model id row relation plan)

  -- `destroyEffects`. Its one caller always has the row.
  unfoldable pub destroy_effects : Option RelationHost → Str → Str → Row → Plan → Plan
  unfolding destroy_all
  destroy_effects host model id row plan =
      let key = composite_key (model ∷ id ∷ []) in
      if StrSet.has key plan.destroyed
      then plan
      else let marked = record plan { destroyed = StrSet.add key plan.destroyed } in
        elim host [
          | none ↦ marked
          | some h ↦ destroy_all model id row (StrMap.values h.relations) marked
        ]
