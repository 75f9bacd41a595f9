-- ===== src/Relations/Types.antt =====
-- src/types/core.relations.types.ts: the declared relations and what the plan expander reads.
use react_native_dblayer.Base.{Bool, Option, List, Ordering}
use react_native_dblayer.Base.Str.{Str}
use react_native_dblayer.Base.StrMap.{StrMap}
use react_native_dblayer.Base.StrSet.{StrSet}
use react_native_dblayer.Where.Filter.{Row}

-- A model as its relations see it. `where_equal` is `where` with one equal field.
pub record ModelRef : Type 0 where
  pub model_id : Str
  pub find : Str → Option Row
  pub where_equal : Str → Str → List Row

pub record CounterCache : Type 0 where
  pub field : Str
  pub filter : Option (Row → Bool)

-- `touch` takes the child, the view of the parent and the replaced ids.
pub record BelongsTo : Type 0 where
  pub model : ModelRef
  pub foreign_key : Str
  pub touch : Option (Row → Row → StrSet → Option Row)
  pub counter_cache : Option CounterCache

pub record HasMany : Type 0 where
  pub model : ModelRef
  pub foreign_key : Str
  pub destroys_dependents : Bool

pub record HasOne : Type 0 where
  pub model : ModelRef
  pub foreign_key : Str
  pub comparator : Option (Row → Row → Option Ordering)

-- `ids` gives the ids as a list, a nullish one as `none`.
pub record References : Type 0 where
  pub model : ModelRef
  pub ids : Row → List (Option Str)

pub data RelationDecl : Type 0 where
  belongs_to : BelongsTo → RelationDecl
  has_many : HasMany → RelationDecl
  has_one : HasOne → RelationDecl
  refers_to : References → RelationDecl

pub record MembershipDelta : Type 0 where
  pub scope_key : Str
  pub append : List Str
  pub detach : List Str

pub record RelationHost : Type 0 where
  pub relations : StrMap RelationDecl
  pub read : Str → Option Row
  pub membership_for_upsert : Option Row → Row → List MembershipDelta
  pub detach_for_destroy : Str → List MembershipDelta

pub record RelationPlanReader : Type 0 where
  pub read : Str → Str → Option Row
  pub rows : Str → List Row

pub record TouchEntry : Type 0 where
  pub model : Str
  pub id : Str
  pub view : Row
  pub patch : Row
