-- ===== src/Tests/Gates.antt =====
-- The write gate at concrete rows.
use react_native_dblayer.Base.{
  ◌≡◌, refl, true, false, none, List, [], ◌∷◌, ◌⊎◌, if◌then◌else◌, any, every, map,
}
use react_native_dblayer.Base.Str.{Str, text, str_eq}
use react_native_dblayer.Base.StrMap
use react_native_dblayer.Base.Value.{pos, nan, int, null, num, str}
use react_native_dblayer.Where.Filter.{Row}
use react_native_dblayer.WritePolicies.Types.{
  snapshot, MonotonicSpec, tuple, local, continuity, monotonic, WriteGroup,
}
use react_native_dblayer.WritePolicies.Codecs.{Builtins}
use react_native_dblayer.WritePolicies.Apply.{
  spread, apply_policy, apply_groups, compile_write_policies,
}
use react_native_dblayer.WritePolicies.Fields.{
  has_name, are_distinct, settle, lets_through, apply_policy-settle,
}
use react_native_dblayer.WritePolicies.Whole.{compile_write_policies-whole}
use react_native_dblayer.WritePolicies.Groups.{
  newest, compile_write_policies-local, compile_write_policies-ungrouped,
}

-- Built-ins that read no number and no date from a text.
abbrev plain_builtins : Builtins
plain_builtins = record {
  number_of = λ s. nan;
  parse_date = λ s. nan;
  iso_text = λ n. [];
  text_of = λ value. elim value [ str s ↦ s | _ ↦ [] ];
}

abbrev draft_row : Row
draft_row =
    (text "draft", str (text "mine"))
    ∷ (text "version", num (int (pos 4)))
    ∷ (text "title", str (text "old"))
    ∷ []

abbrev server_row : Row
server_row =
    (text "draft", null)
    ∷ (text "version", num (int (pos 3)))
    ∷ (text "title", str (text "new"))
    ∷ []

abbrev draft_groups : List WriteGroup
draft_groups =
    record { fields = text "draft" ∷ []; policies = local ∷ [] }
    ∷ record {
      fields = text "version" ∷ [];
      policies = monotonic (tuple (text "version" ∷ [])) none ∷ [];
    }
    ∷ []

compile_write_policies-local_example :
    StrMap.get
      (text "draft")
      (compile_write_policies plain_builtins draft_groups draft_row server_row snapshot)
    ≡ StrMap.get (text "draft") draft_row
unfolding any every has_name are_distinct str_eq
compile_write_policies-local_example =
    compile_write_policies-local plain_builtins draft_groups draft_row server_row snapshot
      (text "draft") refl refl refl

compile_write_policies-ungrouped_example :
    StrMap.get
      (text "title")
      (compile_write_policies plain_builtins draft_groups draft_row server_row snapshot)
    ≡ newest (StrMap.get (text "title") server_row) (StrMap.get (text "title") draft_row)
unfolding any every has_name are_distinct str_eq StrMap.keys
compile_write_policies-ungrouped_example =
    compile_write_policies-ungrouped plain_builtins draft_groups draft_row server_row snapshot
      (text "title") refl refl refl

abbrev version_spec : MonotonicSpec
version_spec = tuple (text "version" ∷ [])

abbrev versioned : List Str
versioned = text "version" ∷ text "title" ∷ []

-- A group before and one after the versioned one.
abbrev body_group : WriteGroup
body_group = record { fields = text "body" ∷ []; policies = continuity ∷ [] }

abbrev draft_group : WriteGroup
draft_group = record { fields = text "draft" ∷ []; policies = local ∷ [] }

compile_write_policies-whole_example :
    let merged = spread draft_row server_row in
    let seen = apply_groups plain_builtins (body_group ∷ []) draft_row snapshot merged in
    let result =
      compile_write_policies plain_builtins
        (body_group
          ∷ record { fields = versioned; policies = monotonic version_spec none ∷ [] }
          ∷ draft_group
          ∷ [])
        draft_row
        server_row
        snapshot in
    (lets_through plain_builtins version_spec none versioned draft_row snapshot seen ≡ true
      × (map (λ j. StrMap.get j result) versioned ≡ map (λ j. StrMap.get j merged) versioned))
    ⊎ (lets_through plain_builtins version_spec none versioned draft_row snapshot seen ≡ false
        × (map (λ j. StrMap.get j result) versioned ≡ map (λ j. StrMap.get j draft_row) versioned))
unfolding are_distinct has_name str_eq every
compile_write_policies-whole_example =
    compile_write_policies-whole plain_builtins (body_group ∷ []) (draft_group ∷ []) version_spec
      none versioned draft_row server_row snapshot refl refl refl

apply_policy-settle_example :
    StrMap.get
      (text "draft")
      (apply_policy plain_builtins continuity (text "draft" ∷ []) draft_row snapshot server_row)
    ≡ (if has_name (text "draft") (text "draft" ∷ [])
        then settle plain_builtins continuity
            (text "draft" ∷ [])
            draft_row
            snapshot
            server_row
            (text "draft")
            (StrMap.get (text "draft") server_row)
        else StrMap.get (text "draft") server_row)
unfolding are_distinct has_name
apply_policy-settle_example =
    apply_policy-settle plain_builtins continuity (text "draft" ∷ []) draft_row snapshot server_row
      (text "draft") refl
