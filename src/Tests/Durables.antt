-- ===== src/Tests/Durables.antt =====
-- Commits and flushes at a concrete storage.
use react_native_dblayer.Base.{
  none, ◌≡◌, refl, Bool, true, false, Option, some, List, [], ◌∷◌, every, map, if◌then◌else◌, inl,
}
use react_native_dblayer.Base.Str.{Str, text, str_eq}
use react_native_dblayer.Base.StrMap
use react_native_dblayer.Base.Value.{Number, nan, int, pos, Value, str, obj, field, done}
use react_native_dblayer.CompositeKey.{decimal}
use react_native_dblayer.Envelope.Types.{AppliedOp, upsert, destroy, scope, scope_delta}
use react_native_dblayer.Scope.Entry.{page}
use react_native_dblayer.Transaction.OpValue.{op_value}
use react_native_dblayer.Tests.Texts.{write_value, read_value, read_text, cut_text, parse_text}
use react_native_dblayer.Transaction.DeltaLog.{
  starts_with, read_delta_log, delta_value, encode_delta, decode_delta, decoded, safe_integer,
  snapseq_key, delta_key,
}
use react_native_dblayer.Transaction.Flush.{
  Runtime, last_seq, marker_text, persist_commit, compact, flush_cache_snapshots,
}
use react_native_dblayer.Transaction.Agreement.{IsCoherent}
use react_native_dblayer.Transaction.Covered.{IsSafe, compact-IsSafe}
use react_native_dblayer.Transaction.Markers.{AreApart, flush_cache_snapshots-IsCoherent}
use react_native_dblayer.Transaction.Commit.{IsDurable, persist_commit-IsDurable}
use react_native_dblayer.Transaction.Cut.{IsReadOrGone, read_delta_log-IsReadOrGone}
use react_native_dblayer.Transaction.Codec.{decode_delta-encode_delta}

abbrev number_of : Str → Number
number_of s = if str_eq s (text "3") then int (pos 3) else nan

abbrev stringify : Value → Str
stringify value = text "{}"

abbrev accepts_every : Str → Bool
accepts_every key = true

abbrev note_op : Value
note_op =
    obj (field (text "kind") (str (text "upsert")) (field (text "model") (str (text "note")) done))

-- A delta of number 3 is pending, its model dirty.
abbrev logged : Runtime
logged = record {
  storage = (delta_key (text "db:") 3, text "{}") ∷ [];
  delta_seq = 4;
  dirty_models = text "note" ∷ [];
  pending_delta_models = (3, text "note" ∷ []) ∷ [];
  snapseq_cache = [];
}

logged-IsCoherent : IsCoherent number_of stringify accepts_every (text "db:") logged
unfolding StrMap.get
logged-IsCoherent model = inl refl

compact-IsSafe_example :
    IsSafe number_of stringify accepts_every (text "db:") logged.pending_delta_models logged (
      (compact number_of stringify accepts_every
        (text "db:")
        logged.pending_delta_models
        logged).runtime)
compact-IsSafe_example =
    compact-IsSafe number_of stringify accepts_every (text "db:") logged.pending_delta_models logged
      logged-IsCoherent

abbrev note_entries : Str → List (Str × Option Str)
note_entries model = (text "rows", some (text "[]")) ∷ []

note_entries-AreApart : AreApart number_of stringify accepts_every (text "db:") note_entries
unfolding every snapseq_key str_eq
note_entries-AreApart model other = refl

flush_cache_snapshots-IsCoherent_example :
    IsCoherent number_of stringify accepts_every (text "db:") (
      (flush_cache_snapshots number_of stringify accepts_every
        (text "db:")
        note_entries
        logged).runtime)
unfolding last_seq marker_text safe_integer decimal str_eq
flush_cache_snapshots-IsCoherent_example =
    flush_cache_snapshots-IsCoherent number_of stringify accepts_every (text "db:") note_entries
      logged note_entries-AreApart refl logged-IsCoherent

persist_commit-IsDurable_example :
    IsDurable number_of stringify accepts_every
      (text "db:")
      ((text "op", some (text "{}")) ∷ [])
      note_op
      []
      logged
      (persist_commit number_of stringify accepts_every
        (text "db:")
        ((text "op", some (text "{}")) ∷ [])
        (note_op ∷ [])
        logged)
persist_commit-IsDurable_example =
    persist_commit-IsDurable number_of stringify accepts_every (text "db:")
      ((text "op", some (text "{}")) ∷ []) note_op [] logged

-- One operation of every kind.
abbrev four_ops : List AppliedOp
four_ops =
    upsert record {
      model = text "note";
      rows = ((text "id", str (text "a")) ∷ []) ∷ [];
      is_replace = true;
    }
    ∷ destroy record {
      model = text "note";
      ids = text "b" ∷ [];
      tombstone = some true;
      is_replace = false;
      replaced_by = none;
    }
    ∷ scope record {
      model = text "note";
      scope_key = text "s";
      next = record { generation = 2; coverage = page; entries = [] };
    }
    ∷ scope_delta record {
      model = text "note";
      scope_key = text "s";
      append = record { id = text "a"; order_key = some (text "V") } ∷ [];
      detach = [];
    }
    ∷ []

decode_delta-encode_delta_example :
    decode_delta parse_text (encode_delta write_value 3 (map op_value four_ops))
    ≡ decoded record { seq = 3; ops = map op_value four_ops }
unfolding write_value read_value read_text cut_text op_value delta_value
decode_delta-encode_delta_example =
    decode_delta-encode_delta write_value parse_text 3 four_ops refl refl

abbrev broken_storage : Str × Str → List (Str × Str)
broken_storage entry = entry ∷ []

read_delta_log-IsReadOrGone_example :
    IsReadOrGone
      (λ raw. none)
      (broken_storage (text "db:delta:000000000003", text "{"))
      (read_delta_log
        (λ raw. none)
        (text "db:")
        (broken_storage (text "db:delta:000000000003", text "{")))
      (text "db:delta:000000000003")
unfolding StrMap.get str_eq starts_with
read_delta_log-IsReadOrGone_example =
    read_delta_log-IsReadOrGone (λ raw. none) (text "db:")
      (broken_storage (text "db:delta:000000000003", text "{")) (text "db:delta:000000000003")
      (text "{") refl refl
