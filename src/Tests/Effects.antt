-- ===== src/Tests/Effects.antt =====
-- The derived effects of a comment that joins, of one that goes, and of a replaced one.
use react_native_dblayer.Base.{
  ◌≤◌, ◌≡◌, refl, Bool, true, false, Option, none, some, [], ◌∷◌, every,
}
use react_native_dblayer.Base.Str.{Str, text}
use react_native_dblayer.Base.Value.{Value, str}
use react_native_dblayer.Where.Filter.{Row}
use react_native_dblayer.CompositeKey.{composite_key}
use react_native_dblayer.Envelope.Types.{RowOrigin, event, replace, AcceptedRow, DestroyedRow}
use react_native_dblayer.Relations.Types.{ModelRef, belongs_to, RelationHost, RelationPlanReader}
use react_native_dblayer.Relations.Effects.{Plan}
use react_native_dblayer.Relations.Derive.{is_settled, drain, empty_plan, derive_effects}
use react_native_dblayer.Relations.Separate.{is_separate}
use react_native_dblayer.Relations.Apart.{derive_effects-separate}
use react_native_dblayer.Relations.Matrix.{is_quiet_op, derive_effects-quiet}
use react_native_dblayer.Relations.Once.{patch_count, derive_effects-one_patch, drain-ends}

abbrev text_of : Value → Str
text_of (str s) = s
text_of _ = []

abbrev posts : ModelRef
posts = record { model_id = text "post"; find = λ id. none; where_equal = λ key id. [] }

abbrev comment_host : RelationHost
comment_host = record {
  relations =
      (
        text "post",
        belongs_to record {
          model = posts;
          foreign_key = text "postId";
          touch = some (λ child parent ids. some ((text "last", str (text "c1")) ∷ []));
          counter_cache = some record { field = text "comments"; filter = none };
        },
      )
      ∷ [];
  read = λ id. none;
  membership_for_upsert =
      λ before after. record { scope_key = text "all"; append = text "c1" ∷ []; detach = [] } ∷ [];
  detach_for_destroy = λ id. record { scope_key = text "all"; append = []; detach = id ∷ [] } ∷ [];
}

abbrev comment_hosts : Str → Option RelationHost
comment_hosts model = some comment_host

abbrev post_reader : RelationPlanReader
post_reader = record { read = λ model id. some ((text "id", str id) ∷ []); rows = λ model. [] }

abbrev comment : Row
comment = (text "id", str (text "c1")) ∷ (text "postId", str (text "p1")) ∷ []

abbrev arrival : RowOrigin → AcceptedRow
arrival origin = record {
  model = text "comment";
  id = text "c1";
  before = none;
  after = comment;
  origin = some origin;
  changed_fields = none;
}

abbrev departure : Bool → DestroyedRow
departure is_replace = record {
  model = text "comment";
  id = text "c1";
  before = comment;
  is_replace = is_replace;
}

derive_effects-separate_example :
    every (is_separate (text "c1")) (
      derive_effects text_of comment_hosts post_reader
        (arrival event ∷ [])
        (departure false ∷ [])
        [])
    ≡ true
derive_effects-separate_example =
    derive_effects-separate (text "c1") text_of comment_hosts post_reader (arrival event ∷ [])
      (departure false ∷ []) []

derive_effects-quiet_example :
    every is_quiet_op (
      derive_effects text_of comment_hosts post_reader
        (arrival replace ∷ [])
        (departure true ∷ [])
        [])
    ≡ true
unfolding every
derive_effects-quiet_example =
    derive_effects-quiet text_of comment_hosts post_reader (arrival replace ∷ [])
      (departure true ∷ []) [] refl refl

derive_effects-one_patch_example :
    patch_count (composite_key (text "post" ∷ text "p1" ∷ [])) (
      derive_effects text_of comment_hosts post_reader (arrival event ∷ arrival replace ∷ []) [] [])
    ≤ 1
derive_effects-one_patch_example =
    derive_effects-one_patch (composite_key (text "post" ∷ text "p1" ∷ [])) text_of comment_hosts
      post_reader (arrival event ∷ arrival replace ∷ []) [] []

abbrev touched_plan : Plan
touched_plan = record empty_plan {
  touch_views =
      (
        text "p",
        record {
          model = text "post";
          id = text "p1";
          view = [];
          patch = (text "last", str (text "c1")) ∷ [];
        },
      )
      ∷ [];
}

drain-ends_example :
    (is_settled ((drain 2 [] touched_plan).1) ≡ true)
    × (drain 5 [] touched_plan ≡ drain 2 [] touched_plan)
drain-ends_example = drain-ends 3 [] touched_plan
