-- ===== src/WritePolicies/Groups.antt =====
-- What the write gate of src/core/writePolicies.ts makes of a field of all its groups.
use react_native_dblayer.Base.{
  Bool, true, false, ◌&&◌, ◌||◌, not, Option, none, some, List, [], ◌∷◌, if◌then◌else◌, every, any,
  ◌≡◌, refl, ◌∙◌, arith,
}
use react_native_dblayer.Base.Str.{Str, str_eq_iff}
use react_native_dblayer.Base.StrMap
use react_native_dblayer.Base.StrMap.{StrMap}
use react_native_dblayer.Base.Value.{Value}
use react_native_dblayer.Where.Filter.{Row}
use react_native_dblayer.WritePolicies.Types.{
  WriteOrigin, patch, WritePolicy, server, local, continuity, snapshot_fold, monotonic, keys,
  WriteGroup,
}
use react_native_dblayer.WritePolicies.Codecs.{Builtins}
use react_native_dblayer.WritePolicies.Apply.{
  origin_eq, spread, apply_policy, apply_policies, apply_groups, compile_write_policies,
}
use react_native_dblayer.WritePolicies.Fields.{has_name, are_distinct, settle, apply_policy-settle}

-- Whether a group holds the field.
abbrev pub group_has : Str → WriteGroup → Bool
group_has j group = has_name j group.fields

abbrev pub is_local : WritePolicy → Bool
is_local local = true
is_local _ = false

-- The groups have distinct fields, and those that hold the field have local policies, one at least.
abbrev pub is_local_group : Str → WriteGroup → Bool
is_local_group j group =
    are_distinct group.fields
    && (not (has_name j group.fields)
        || (every is_local group.policies && any is_local group.policies))

pub other_policies :
    (js : Builtins) (policies : List WritePolicy) (fields : List Str) (previous : Row)
    (origin : WriteOrigin) (effective : Row) (j : Str)
    → are_distinct fields ≡ true
    → has_name j fields ≡ false
    → StrMap.get j (apply_policies js policies fields previous origin effective)
      ≡ StrMap.get j effective
unfolding apply_policies
other_policies js [] fields previous origin effective j d h = refl
other_policies js (policy ∷ policies) fields previous origin effective j d h = ground (
  arith,
  apply_policy-settle js policy fields previous origin effective j d,
  other_policies js policies fields previous origin
      (apply_policy js policy fields previous origin effective) j d h,
)

pub local_policies :
    (js : Builtins) (policies : List WritePolicy) (fields : List Str) (previous : Row)
    (origin : WriteOrigin) (effective : Row) (j : Str)
    → are_distinct fields ≡ true
    → has_name j fields ≡ true
    → every is_local policies ≡ true
    → origin_eq origin patch ≡ false
    → StrMap.get j (apply_policies js policies fields previous origin effective)
      ≡ (if any is_local policies then StrMap.get j previous else StrMap.get j effective)
unfolding apply_policies every any settle
local_policies js [] fields previous origin effective j d h l o = refl
local_policies js (local ∷ policies) fields previous origin effective j d h l o = ground (
  arith,
  apply_policy-settle js local fields previous origin effective j d,
  local_policies js policies fields previous origin
      (apply_policy js local fields previous origin effective) j d h l o,
)
local_policies js (server ∷ policies) fields previous origin effective j d h l o =
    absurd (ground arith)
local_policies js (continuity ∷ policies) fields previous origin effective j d h l o =
    absurd (ground arith)
local_policies js (snapshot_fold ∷ policies) fields previous origin effective j d h l o =
    absurd (ground arith)
local_policies js (keys p r ∷ policies) fields previous origin effective j d h l o =
    absurd (ground arith)
local_policies js (monotonic s on ∷ policies) fields previous origin effective j d h l o =
    absurd (ground arith)

pub local_groups :
    (js : Builtins) (groups : List WriteGroup) (previous : Row) (origin : WriteOrigin)
    (effective : Row) (j : Str)
    → every (is_local_group j) groups ≡ true
    → origin_eq origin patch ≡ false
    → StrMap.get j (apply_groups js groups previous origin effective)
      ≡ (if any (group_has j) groups then StrMap.get j previous else StrMap.get j effective)
unfolding apply_groups every any
local_groups js [] previous origin effective j h o = refl
local_groups js (group ∷ groups) previous origin effective j h o = ground (
  arith,
  local_policies js group.policies group.fields previous origin effective j,
  other_policies js group.policies group.fields previous origin effective j,
  local_groups js groups previous origin
      (apply_policies js group.policies group.fields previous origin effective) j,
)

-- A field whose groups all have local policies only is written by a patch alone: from any other
-- origin the gate gives it its previous value, or takes it off when there was none. The groups
-- list distinct fields.
pub compile_write_policies-local :
    (js : Builtins) (groups : List WriteGroup) (previous incoming : Row) (origin : WriteOrigin)
    (j : Str)
    → any (group_has j) groups ≡ true
    → every (is_local_group j) groups ≡ true
    → origin_eq origin patch ≡ false
    → StrMap.get j (compile_write_policies js groups previous incoming origin)
      ≡ StrMap.get j previous
unfolding compile_write_policies
compile_write_policies-local js groups previous incoming origin j held h o =
    ground (arith, local_groups js groups previous origin (spread previous incoming) j h o)

abbrev pub newest : Option Value → Option Value → Option Value
newest none previous = previous
newest (some value) previous = some value

pub get_absent :
    (row : Row) (j : Str) → has_name j (StrMap.keys row) ≡ false → StrMap.get j row ≡ none
unfolding StrMap.get StrMap.keys has_name
get_absent [] j h = refl
get_absent ((k, v) ∷ row) j h = ground (arith, get_absent row j)

pub get-spread :
    (left right : Row) (j : Str)
    → are_distinct (StrMap.keys right) ≡ true
    → StrMap.get j (spread left right) ≡ newest (StrMap.get j right) (StrMap.get j left)
unfolding spread StrMap.get StrMap.keys are_distinct
get-spread left [] j h = refl
get-spread left ((k, v) ∷ right) j h = ground (
  arith,
  get-spread (StrMap.set k v left) right j,
  StrMap.get-set k j v left,
  get_absent right j,
  str_eq_iff k j,
)

pub other_groups :
    (js : Builtins) (groups : List WriteGroup) (previous : Row) (origin : WriteOrigin)
    (effective : Row) (j : Str)
    → every (λ group. are_distinct group.fields) groups ≡ true
    → any (group_has j) groups ≡ false
    → StrMap.get j (apply_groups js groups previous origin effective) ≡ StrMap.get j effective
unfolding apply_groups every any
other_groups js [] previous origin effective j d h = refl
other_groups js (group ∷ groups) previous origin effective j d h = ground (
  arith,
  other_policies js group.policies group.fields previous origin effective j,
  other_groups js groups previous origin
      (apply_policies js group.policies group.fields previous origin effective) j,
)

-- A field of no group takes its incoming value, or keeps its previous one when the incoming row
-- does not have it, whatever the origin. The groups list distinct fields, and the incoming row has
-- distinct keys.
pub compile_write_policies-ungrouped :
    (js : Builtins) (groups : List WriteGroup) (previous incoming : Row) (origin : WriteOrigin)
    (j : Str)
    → every (λ group. are_distinct group.fields) groups ≡ true
    → any (group_has j) groups ≡ false
    → are_distinct (StrMap.keys incoming) ≡ true
    → StrMap.get j (compile_write_policies js groups previous incoming origin)
      ≡ newest (StrMap.get j incoming) (StrMap.get j previous)
unfolding compile_write_policies
compile_write_policies-ungrouped js groups previous incoming origin j d h u =
    other_groups js groups previous origin (spread previous incoming) j d h
    ∙ get-spread previous incoming j u
