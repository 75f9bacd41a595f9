-- ===== src/Tests/Envelopes.antt =====
-- A small plan compiled to an envelope.
use react_native_dblayer.Base.{
  ◌≡◌, refl, true, false, Option, none, some, List, [], ◌∷◌, every, subst,
}
use react_native_dblayer.Base.Str.{Str, text, str_eq}
use react_native_dblayer.Base.StrMap
use react_native_dblayer.Base.Value.{Value, str, obj, done, field}
use react_native_dblayer.Where.Filter.{Row, read_field}
use react_native_dblayer.Relations.Types.{RelationHost}
use react_native_dblayer.Envelope.Types.{WriteOp, AppliedOp, upsert, destroy, ApplyTarget}
use react_native_dblayer.Envelope.Overlay.{read_planned_row}
use react_native_dblayer.Envelope.Inputs.{non_empty_id, Phase, prepared_id}
use react_native_dblayer.Envelope.Prepare.{prepare_operations}
use react_native_dblayer.Envelope.Replay.{after_op, IsTextOf, PreparesIds, IsReplayOf}
use react_native_dblayer.Envelope.Returns.{has_target, prepare_operations-replay}

abbrev text_of : Value → Str
text_of (str s) = s
text_of _ = []

abbrev note : Row
note = (text "id", str (text "n1")) ∷ []

-- A target that prepares every input as one note.
abbrev note_target : ApplyTarget
note_target = record {
  read_row = λ id. none;
  read_all_rows = [];
  plan_scope_placement = λ key ids read. [];
  scope_order_affected = λ key id fields. false;
  row_belongs_to_scope = λ key row. true;
  is_server_order = λ key. false;
  prepare_upsert = λ input previous origin base operation revision.
      some record { row = note; changed_fields = none };
  prepare_patch = λ id patch previous operation remove revision. none;
  admit_destroy = λ id revision. true;
  reactive_scopes = λ ids. [];
}

abbrev note_targets : Str → Option ApplyTarget
note_targets model = some note_target

text_of-IsTextOf : IsTextOf text_of
text_of-IsTextOf = record { of_str = λ s. refl }

note_target-PreparesIds : PreparesIds note_target
unfolding prepared_id non_empty_id read_field StrMap.get str_eq
note_target-PreparesIds = record {
  upsert_id = λ input previous origin base operation revision prepared h.
      let same : record { row = note; changed_fields = none } ≡ prepared = cc in
      (text "n1", subst (λ p. prepared_id p.row ≡ some (text "n1")) same refl);
}

note_ids : (target : ApplyTarget) → some note_target ≡ some target → PreparesIds target
note_ids target e =
    let same : note_target ≡ target = cc in subst PreparesIds same note_target-PreparesIds

abbrev note_ops : List WriteOp
note_ops =
    upsert record {
      model = text "note";
      rows = obj (field (text "id") (str (text "n1")) done) ∷ [];
      origin = none;
      merge_base = none;
      operation_id = none;
      base_revision = none;
    }
    ∷ destroy record {
      model = text "note";
      ids = text "n1" ∷ text "n1" ∷ [];
      tombstone = none;
      is_replace = false;
      replaced_by = none;
      operation_transitions = [];
      base_revision = none;
    }
    ∷ []

prepare_operations-replay_example :
    (phase : Phase) × (prepare_operations text_of note_targets note_ops [] ≡ some phase)
    × IsReplayOf text_of note_targets (read_planned_row note_targets []) phase
unfolding every has_target
prepare_operations-replay_example =
    prepare_operations-replay text_of note_targets text_of-IsTextOf
      (λ model target e. note_ids target e) note_ops [] refl

abbrev no_hosts : Str → Option RelationHost
no_hosts model = none

abbrev one_note : List WriteOp
one_note =
    upsert record {
      model = text "note";
      rows = obj (field (text "id") (str (text "n1")) done) ∷ [];
      origin = none;
      merge_base = none;
      operation_id = none;
      base_revision = none;
    }
    ∷ []

abbrev one_planned : List AppliedOp
one_planned = upsert record { model = text "note"; rows = note ∷ []; is_replace = false } ∷ []

-- The note of the plan and a log of the scope work.
abbrev note_after : AppliedOp → Option Row → Option Row
note_after op value = after_op text_of (text "note") (text "n1") op value

abbrev log_scope : AppliedOp → List AppliedOp → List AppliedOp
log_scope op log = op ∷ log
