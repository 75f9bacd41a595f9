-- ===== src/Transaction/Flush.antt =====
-- The persistence of `createApplyRuntime` in src/core/apply/transaction.ts: `snapseqOf`,
-- `flushCacheSnapshots` and `persistCommit`. A write that storage refuses throws. The timer of the
-- flush and the test of the runtime generation are left out.
use react_native_dblayer.Base.{
  ℕ, zero, suc, Bool, true, false, Option, none, some, List, [], ◌∷◌, if◌then◌else◌, leb, ◌==◌,
}
use react_native_dblayer.Base.Str.{Str, text}
use react_native_dblayer.Base.StrMap
use react_native_dblayer.Base.StrMap.{StrMap}
use react_native_dblayer.Base.StrSet
use react_native_dblayer.Base.StrSet.{StrSet}
use react_native_dblayer.Base.Value.{Number, Value, str, obj, entries}
use react_native_dblayer.Where.Filter.{read_field}
use react_native_dblayer.CompositeKey.{decimal}
use react_native_dblayer.Transaction.DeltaLog.{
  Storage, delta_key, snapseq_key, read_snapseq, encode_delta,
}

pub record Runtime : Type 0 where
  pub storage : Storage
  pub delta_seq : ℕ
  pub dirty_models : StrSet
  pub pending_delta_models : List (ℕ × List Str)
  pub snapseq_cache : StrMap (Option ℕ)

-- A state, and whether the code threw there.
pub record Outcome : Type 0 where
  pub runtime : Runtime
  pub threw : Bool

-- `storage.set(key, value)`
unfoldable pub put : Str → Option Str → Storage → Storage
put key none storage = StrMap.delete key storage
put key (some value) storage = StrMap.set key value storage

-- `deltaSeq - 1`; `none` is -1.
unfoldable pub last_seq : ℕ → Option ℕ
last_seq zero = none
last_seq (suc n) = some n

unfoldable pub marker_text : Option ℕ → Str
marker_text none = text "-1"
marker_text (some n) = decimal n

unfoldable pub op_model : Value → Str
op_model (obj fields) = elim (read_field (entries fields) (text "model")) [
  | str model ↦ model
  | _ ↦ []
]
op_model _ = []

-- `touchedModelsOf`, onto the models before them.
unfoldable pub touched_models : List Value → StrSet → StrSet
touched_models [] models = models
touched_models (op ∷ ops) models = touched_models ops (StrSet.add (op_model op) models)

unfoldable pub set_pending : ℕ → List Str → List (ℕ × List Str) → List (ℕ × List Str)
set_pending seq models [] = (seq, models) ∷ []
set_pending seq models ((s, ms) ∷ pending) =
    let rest = set_pending seq models pending in
    if s == seq then (s, models) ∷ pending else (s, ms) ∷ rest

unfoldable pub covers : Option ℕ → ℕ → Bool
covers none seq = false
covers (some covered) seq = leb seq covered

module _ (number_of : Str → Number) (stringify : Value → Str) (accepts : Str → Bool)
    (prefix : Str) where
  -- `storage.set`, thrown where refused.
  unfoldable pub write : Str → Option Str → Runtime → Outcome
  write key value runtime =
      if accepts key
      then record {
        runtime = record runtime { storage = put key value runtime.storage };
        threw = false;
      }
      else record { runtime = runtime; threw = true }

  unfoldable pub and_then : Outcome → (Runtime → Outcome) → Outcome
  and_then outcome next = if outcome.threw then outcome else next outcome.runtime

  unfoldable pub write_all : List (Str × Option Str) → Runtime → Outcome
  write_all [] runtime = record { runtime = runtime; threw = false }
  write_all ((key, value) ∷ entries) runtime =
      and_then (write key value runtime) (write_all entries)

  unfoldable pub cached_or_read : Str → Option (Option ℕ) → Runtime → Option ℕ × Runtime
  cached_or_read model (some cached) runtime = (cached, runtime)
  cached_or_read model none runtime =
      let persisted = read_snapseq number_of runtime.storage prefix model in
      (
        persisted,
        record runtime { snapseq_cache = StrMap.set model persisted runtime.snapseq_cache },
      )

  -- `snapseqOf`
  unfoldable pub snapseq_of : Str → Runtime → Option ℕ × Runtime
  snapseq_of model runtime = cached_or_read model (StrMap.get model runtime.snapseq_cache) runtime

  -- `models.every(model => snapseqOf(model) >= seq)`
  unfoldable pub all_cover : ℕ → List Str → Runtime → Bool × Runtime
  all_cover seq [] runtime = (true, runtime)
  all_cover seq (model ∷ models) runtime =
      let (covered, next) = snapseq_of model runtime in
      let rest = all_cover seq models next in if covers covered seq then rest else (false, next)

  unfoldable pub landed : Str → Option ℕ → Runtime → Outcome
  landed model covered runtime = record {
    runtime = record runtime {
      snapseq_cache = StrMap.set model covered runtime.snapseq_cache;
      dirty_models = StrSet.delete model runtime.dirty_models;
    };
    threw = false;
  }

  -- The snapshots of the dirty models, each before its marker.
  unfoldable pub flush_models :
      (Str → List (Str × Option Str)) → Option ℕ → List Str → Runtime → Outcome
  flush_models persist_entries covered [] runtime = record { runtime = runtime; threw = false }
  flush_models persist_entries covered (model ∷ models) runtime =
      and_then (write_all (persist_entries model) runtime) (λ written.
        and_then (write (snapseq_key prefix model) (some (marker_text covered)) written) (λ marked.
          and_then (landed model covered marked) (flush_models persist_entries covered models)))

  without_seq : ℕ → List (ℕ × List Str) → List (ℕ × List Str)
  without_seq seq [] = []
  without_seq seq ((s, models) ∷ pending) =
      let rest = without_seq seq pending in if s == seq then rest else (s, models) ∷ rest

  unfoldable pub drop_covered : ℕ → Bool × Runtime → Outcome
  unfolding without_seq
  drop_covered seq (false, runtime) = record { runtime = runtime; threw = false }
  drop_covered seq (true, runtime) =
      and_then (write (delta_key prefix seq) none runtime) (λ deleted. record {
        runtime = record deleted {
          pending_delta_models = without_seq seq deleted.pending_delta_models;
        };
        threw = false;
      })

  -- The deltas that every snapshot now covers go.
  unfoldable pub compact : List (ℕ × List Str) → Runtime → Outcome
  unfolding drop_covered
  compact [] runtime = record { runtime = runtime; threw = false }
  compact ((seq, models) ∷ pending) runtime =
      and_then (drop_covered seq (all_cover seq models runtime)) (compact pending)

  -- `flushCacheSnapshots`
  unfoldable pub flush_cache_snapshots : (Str → List (Str × Option Str)) → Runtime → Outcome
  flush_cache_snapshots persist_entries runtime =
      and_then
        (flush_models persist_entries (last_seq runtime.delta_seq) runtime.dirty_models runtime)
        (λ flushed. compact flushed.pending_delta_models flushed)

  -- The delta of a commit. A refused write leaves its number free.
  unfoldable pub persist_delta : List Value → Runtime → Runtime
  persist_delta [] runtime = runtime
  persist_delta (op ∷ ops) runtime =
      let seq = runtime.delta_seq in
      if accepts (delta_key prefix seq)
      then record runtime {
        storage =
            StrMap.set (delta_key prefix seq) (encode_delta stringify seq (op ∷ ops))
              runtime.storage;
        delta_seq = suc seq;
        pending_delta_models =
            set_pending seq (touched_models (op ∷ ops) []) runtime.pending_delta_models;
      }
      else runtime

  -- `persistCommit`, with the entries of `prepareTransitions`, none without transitions.
  unfoldable pub persist_commit : List (Str × Option Str) → List Value → Runtime → Outcome
  persist_commit ledger_entries ops runtime =
      and_then (write_all ledger_entries runtime) (λ written.
        let logged = persist_delta ops written in
        record {
          runtime = record logged { dirty_models = touched_models ops logged.dirty_models };
          threw = false;
        })
