-- ===== src/Tests/Buses.antt =====
-- The commit bus at concrete inputs.
use react_native_dblayer.Base.{true, ◌≡◌, refl, ◌&&◌, none, some, List, [], ◌∷◌, any, keep}
use react_native_dblayer.Base.Str.{text, str_eq}
use react_native_dblayer.Base.StrSet
use react_native_dblayer.Base.StrMap
use react_native_dblayer.CommitBus.{
  Bus, CommitBatch, Dependency, row, dep_matches, row_matches, has_ref, bucket, is_empty_batch,
  candidates_from, batch_models, add_names, add_refs, add_ref, add_to_model_buckets, models_of,
  allocate, subscribe, unsubscribe, publish,
}
use react_native_dblayer.CommitBus.Coherent.{
  IsCoherent, subscribe-IsCoherent, unsubscribe-IsCoherent,
}
use react_native_dblayer.CommitBus.Once.{no_repeats, publish-no_repeats}
use react_native_dblayer.CommitBus.Publish.{publish-notified}

abbrev empty_bus : Bus
empty_bus = record {
  deps_of = λ r. [];
  next_ref = 0;
  subscribers = [];
  retained = [];
  subscribers_by_model = [];
  all_subscribers = [];
  sequence = 0;
}

empty_bus-IsCoherent : IsCoherent empty_bus
unfolding has_ref any bucket StrMap.get
empty_bus-IsCoherent = record { buckets = λ m r. refl; fresh = λ r h. cc }

abbrev name_of_row : List Dependency
name_of_row = row (text "user") (text "1") (some (text "name" ∷ [])) ∷ []

abbrev one_rename : CommitBatch
one_rename = record {
  rows =
      record {
        model = text "user";
        id = text "1";
        fields = some (text "name" ∷ []);
        kind = none;
        replaced_by = none;
      }
      ∷ [];
  scopes = [];
  pending = [];
}

subscribe-IsCoherent_example : IsCoherent (subscribe name_of_row empty_bus)
subscribe-IsCoherent_example = subscribe-IsCoherent name_of_row empty_bus empty_bus-IsCoherent

unsubscribe-IsCoherent_example : IsCoherent (unsubscribe 0 (subscribe name_of_row empty_bus))
unsubscribe-IsCoherent_example =
    unsubscribe-IsCoherent 0 (subscribe name_of_row empty_bus)
      (subscribe-IsCoherent name_of_row empty_bus empty_bus-IsCoherent)

publish_run : (publish one_rename (subscribe name_of_row empty_bus)).notified ≡ 0 ∷ []
unfolding publish subscribe is_empty_batch keep candidates_from batch_models add_names StrSet.add
    StrSet.has add_refs bucket StrMap.get add_to_model_buckets models_of StrMap.set str_eq add_ref
    has_ref any allocate dep_matches row_matches
publish_run = refl

publish-notified_example :
    has_ref 0 (publish one_rename (subscribe name_of_row empty_bus)).notified ≡ (
      has_ref 0 (subscribe name_of_row empty_bus).subscribers
      && any (dep_matches one_rename) ((subscribe name_of_row empty_bus).deps_of 0))
publish-notified_example =
    publish-notified one_rename (subscribe name_of_row empty_bus) 0
      (subscribe-IsCoherent name_of_row empty_bus empty_bus-IsCoherent)

publish-no_repeats_example :
    no_repeats (publish one_rename (subscribe name_of_row empty_bus)).notified ≡ true
publish-no_repeats_example = publish-no_repeats one_rename (subscribe name_of_row empty_bus)
