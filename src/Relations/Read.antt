-- ===== src/Relations/Read.antt =====
-- `readModelRelation` and `hasDependentCascade` of src/core/relations.ts.
use react_native_dblayer.Base.{Bool, false, Option, none, some, List, [], ◌∷◌, any}
use react_native_dblayer.Base.Str.{Str}
use react_native_dblayer.Base.StrMap
use react_native_dblayer.Base.StrMap.{StrMap}
use react_native_dblayer.Base.Value.{Value, str}
use react_native_dblayer.Where.Filter.{Row, read_field}
use react_native_dblayer.Ordering.{pick_lowest_row}
use react_native_dblayer.Relations.Types.{
  ModelRef, RelationDecl, belongs_to, has_many, has_one, refers_to, RelationHost,
}

-- One target row or none, or a list of rows.
pub data RelationResult : Type 0 where
  one : Option Row → RelationResult
  many : List Row → RelationResult

-- What a missing source row gives.
unfoldable pub empty_result : RelationDecl → RelationResult
empty_result (belongs_to r) = one none
empty_result (has_many r) = many []
empty_result (has_one r) = one none
empty_result (refers_to r) = many []

find_target : ModelRef → Value → Option Row
find_target model (str id) = model.find id
find_target model _ = none

unfoldable pub resolve_ids : (Str → Option Row) → List (Option Str) → List Row
resolve_ids find [] = []
resolve_ids find (none ∷ ids) = resolve_ids find ids
resolve_ids find (some id ∷ ids) =
    let rest = resolve_ids find ids in elim (find id) [ none ↦ rest | some row ↦ row ∷ rest ]

module _ (id_of : Row → Str) where
  -- `readModelRelation` from a source row on.
  unfoldable pub read_target : RelationDecl → Str → Row → RelationResult
  unfolding find_target
  read_target (belongs_to r) id source = one (find_target r.model (read_field source r.foreign_key))
  read_target (has_many r) id source = many (r.model.where_equal r.foreign_key id)
  read_target (has_one r) id source =
      one (pick_lowest_row id_of (r.model.where_equal r.foreign_key id) r.comparator)
  read_target (refers_to r) id source = many (resolve_ids r.model.find (r.ids source))

  read_source : RelationHost → RelationDecl → Option Str → RelationResult
  read_source host relation none = empty_result relation
  read_source host relation (some id) = elim (host.read id) [
    | none ↦ empty_result relation
    | some source ↦ read_target relation id source
  ]

  read_declared : RelationHost → Option RelationDecl → Option Str → Option RelationResult
  unfolding read_source
  read_declared host none id = none
  read_declared host (some relation) id = some (read_source host relation id)

  -- `readModelRelation`; `none` where it throws.
  unfoldable pub read_model_relation :
      (Str → Option RelationHost) → Str → Option Str → Str → Option RelationResult
  unfolding read_declared
  read_model_relation hosts model id name = elim (hosts model) [
    | none ↦ none
    | some host ↦ read_declared host (StrMap.get name host.relations) id
  ]

is_cascade : RelationDecl → Bool
is_cascade (has_many r) = r.destroys_dependents
is_cascade _ = false

-- `hasDependentCascade`
unfoldable pub has_dependent_cascade : (Str → Option RelationHost) → Str → Bool
unfolding is_cascade
has_dependent_cascade hosts model = elim (hosts model) [
  | none ↦ false
  | some host ↦ any is_cascade (StrMap.values host.relations)
]
