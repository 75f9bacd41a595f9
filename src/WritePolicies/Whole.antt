-- ===== src/WritePolicies/Whole.antt =====
-- A monotonic group of the write gate of src/core/writePolicies.ts among the other groups.
use react_native_dblayer.Base.{
  Bool, true, false, ◌&&◌, not, Option, List, [], ◌∷◌, ◌++◌, if◌then◌else◌, every, any, map, ◌≡◌,
  refl, ◌∙◌, ap, subst, arith, ◌⊎◌, inl, inr, Bool-cases,
}
use react_native_dblayer.Base.Str.{Str, str_eq, str_eq_iff, str_eq_refl}
use react_native_dblayer.Base.StrMap
use react_native_dblayer.Base.Value.{Value}
use react_native_dblayer.Where.Filter.{Row}
use react_native_dblayer.WritePolicies.Types.{WriteOrigin, monotonic, WriteGroup, MonotonicSpec}
use react_native_dblayer.WritePolicies.Codecs.{Builtins}
use react_native_dblayer.WritePolicies.Apply.{
  spread, apply_policy, apply_policies, apply_groups, compile_write_policies,
}
use react_native_dblayer.WritePolicies.Fields.{
  has_name, are_distinct, lets_through, settle, apply_policy-settle,
}
use react_native_dblayer.WritePolicies.Groups.{group_has, other_groups}

-- A group of distinct fields, none of them among the given ones.
abbrev pub is_apart : List Str → WriteGroup → Bool
is_apart fields group =
    are_distinct group.fields && every (λ j. not (has_name j group.fields)) fields

every_at :
    (p : Str → Bool) (j : Str) (fields : List Str)
    → every p fields ≡ true
    → has_name j fields ≡ true
    → p j ≡ true
unfolding every has_name
every_at p j [] h m = absurd (ground arith)
every_at p j (k ∷ fields) h m = elim (Bool-cases (str_eq k j)) [
  | inl same ↦ subst (λ x. p x ≡ true) ((str_eq_iff k j).0 same) (ground arith)
  | inr other ↦ every_at p j fields (ground arith) (ground arith)
]

apart_groups :
    (fields : List Str) (groups : List WriteGroup) (j : Str)
    → every (is_apart fields) groups ≡ true
    → has_name j fields ≡ true
    → (every (λ group. are_distinct group.fields) groups ≡ true)
      × (any (group_has j) groups ≡ false)
unfolding every any
apart_groups fields [] j h m = (refl, refl)
apart_groups fields (group ∷ groups) j h m =
    let free : not (has_name j group.fields) ≡ true =
      every_at (λ k. not (has_name k group.fields)) j fields (ground arith) m in
    let (distinct, away) = apart_groups fields groups j (ground arith) m in
    (ground arith, ground arith)

map_same :
    (f g : Str → Option Value) (fields : List Str)
    → ((j : Str) → has_name j fields ≡ true → f j ≡ g j)
    → map f fields ≡ map g fields
unfolding has_name
map_same f g [] h = refl
map_same f g (k ∷ fields) h =
    ap (λ x. x ∷ map f fields) (h k (rw (str_eq_refl k) refl))
    ∙ ap (λ xs. g k ∷ xs) (map_same f g fields (λ j m. h j (ground arith)))

module _ (js : Builtins) (previous : Row) (origin : WriteOrigin) where
  apply_groups-append :
      (before after : List WriteGroup) (effective : Row)
      → apply_groups js (before ++ after) previous origin effective
        ≡ apply_groups js after previous origin (apply_groups js before previous origin effective)
  unfolding apply_groups
  apply_groups-append [] after effective = refl
  apply_groups-append (group ∷ before) after effective =
      apply_groups-append before after
        (apply_policies js group.policies group.fields previous origin effective)

  module _ (spec : MonotonicSpec) (on : Option (List WriteOrigin)) (fields : List Str) where
    abbrev pub the_group : WriteGroup
    the_group = record { fields = fields; policies = monotonic spec on ∷ [] }

    -- One field of the group, after the group and the groups that follow it.
    settled :
        (after : List WriteGroup) (seen : Row) (j : Str)
        → are_distinct fields ≡ true
        → every (is_apart fields) after ≡ true
        → has_name j fields ≡ true
        → StrMap.get j (apply_groups js (the_group ∷ after) previous origin seen) ≡ (
            if lets_through js spec on fields previous origin seen
            then StrMap.get j seen
            else StrMap.get j previous)
    unfolding apply_groups apply_policies settle
    settled after seen j d apart m =
        let (distinct, away) = apart_groups fields after j apart m in
        let row = apply_policy js (monotonic spec on) fields previous origin seen in
        ground (
          arith,
          other_groups js after previous origin row j distinct away,
          apply_policy-settle js (monotonic spec on) fields previous origin seen j d,
        )

    whole_field :
        (before after : List WriteGroup) (merged : Row) (j : Str)
        → are_distinct fields ≡ true
        → every (is_apart fields) before ≡ true
        → every (is_apart fields) after ≡ true
        → has_name j fields ≡ true
        → StrMap.get j (apply_groups js (before ++ the_group ∷ after) previous origin merged) ≡ (
            if lets_through js spec on fields previous origin
              (apply_groups js before previous origin merged)
            then StrMap.get j merged
            else StrMap.get j previous)
    whole_field before after merged j d b a m =
        let (distinct, away) = apart_groups fields before j b m in
        ap (StrMap.get j) (apply_groups-append before (the_group ∷ after) merged)
        ∙ settled after (apply_groups js before previous origin merged) j d a m
        ∙ ap
            (λ x.
              if lets_through js spec on fields previous origin
                (apply_groups js before previous origin merged)
              then x
              else StrMap.get j previous)
            (other_groups js before previous origin merged j distinct away)

-- A group of distinct fields whose only policy is monotonic, among other groups of distinct
-- fields that hold none of its fields, is taken whole or refused whole: after the gate its fields
-- all have their values of the merged row, or all their values of before, by one decision on the
-- previous row, the origin and the row that the groups before it leave.
pub compile_write_policies-whole :
    (js : Builtins) (before after : List WriteGroup) (spec : MonotonicSpec)
    (on : Option (List WriteOrigin)) (fields : List Str) (previous incoming : Row)
    (origin : WriteOrigin)
    → are_distinct fields ≡ true
    → every (is_apart fields) before ≡ true
    → every (is_apart fields) after ≡ true
    → let merged = spread previous incoming in
      let seen = apply_groups js before previous origin merged in
      let groups =
        before ++ record { fields = fields; policies = monotonic spec on ∷ [] } ∷ after in
      let result = compile_write_policies js groups previous incoming origin in
      (lets_through js spec on fields previous origin seen ≡ true
        × (map (λ j. StrMap.get j result) fields ≡ map (λ j. StrMap.get j merged) fields))
      ⊎ (lets_through js spec on fields previous origin seen ≡ false
          × (map (λ j. StrMap.get j result) fields ≡ map (λ j. StrMap.get j previous) fields))
unfolding compile_write_policies
compile_write_policies-whole js before after spec on fields previous incoming origin d b a =
    let merged = spread previous incoming in
    let seen = apply_groups js before previous origin merged in
    let whole = λ (j : Str) (m : has_name j fields ≡ true).
      whole_field js previous origin spec on fields before after merged j d b a m in
    elim (Bool-cases (lets_through js spec on fields previous origin seen)) [
      | inl t ↦ inl (t, map_same _ _ fields (λ j m. whole j m ∙ rw t refl))
      | inr f ↦ inr (f, map_same _ _ fields (λ j m. whole j m ∙ rw f refl))
    ]
