-- ===== src/Lib.antt =====
-- A verification of the local-first data layer: the keys, ledgers and indexes that the package
-- keeps in memory and writes to storage. Paths below are those of the repository.
--
-- Parts and files
--   Base: shared names, the Boolean tests, lists, strings as lists of UTF-16 code units (Str), sets
--     and maps in insertion order (StrSet, StrMap), and JSON-like values (Value).
--   OrderKey: src/core/orderKey.ts. `key_between` is keyBetween, `keys_for_sequence` is
--     keysForSequence with its sizing loop, its even distribution and its chained walk, on numbers
--     that Double rounds as JavaScript does. A throw is `none`. Digits, Between and Sequence/...
--     hold the proofs.
--   CompositeKey: compositeKey and parseCompositeKey of src/core/serialize.ts.
--   Ledger: src/core/planes/operationState.ts and src/types/core.planes.operationState.types.ts.
--     Types holds the records, Transition applyTransition, State the maps with their upkeep and
--     what is written, Methods the methods that change the ledger, Queries those that read it.
--     Record objects carry a number that stands for their identity, as the row buckets are sets
--     of objects. The once keys and the row keys of the ledger come from its records by
--     CompositeKey.
--   Scope: src/core/planes/scopeIndex.ts and its types. Entry holds the entries and the checks,
--     Placement and Reconcile reconcileNext and trimValue, which return the next value and change
--     nothing, State the maps and the commit, Methods the methods that change or read them. The keys
--     of new entries come from OrderKey. Members, FreeKey, Append, Membership, Indexed, Commit, Delta,
--     Staging and Trim hold the proofs.
--   CommitBus: src/core/apply/commitBus.ts and its types. Subscribers are numbers that stand for
--     their objects; a publish returns whom it calls, in order.
--   LoadingState: src/queries/base/loadingState.ts.
--   Ordering: withIdTieBreak, pickLowestRow and limitRows of src/core/ordering.ts; Lowest holds the
--     proofs, over any comparator.
--   Where: src/core/compileDbWhere.ts (Filter: matchesDbWhere) and src/core/compileWhereExpression.ts
--     (Compile), whose collection engine is an interface. Sql states the truth values that the
--     engine documents and the types of filters; Truths and Agree hold the proofs.
--   WritePolicies: src/core/writePolicies.ts and its types. Codecs holds readNumber and readDate of
--     src/schema/fieldCodec.ts and isIncomingNewer of src/core/invariants.ts, Monotonic the
--     predicates, Apply the gate compileWritePolicies, Fields, Groups and Whole what it does to a
--     field.
--   Relations: src/core/relations.ts. Read holds readModelRelation, Pending the membership that a
--     plan accumulates, Effects what one row brings, Derive deriveEffects. A host and a reader of
--     rows are records of functions. Stable and Gathers carry a property of the plan over its
--     changes; Separate, Apart, Matrix and Once hold the properties.
--   Envelope: src/core/apply/commitEnvelope.ts with src/types/core.apply.ops.types.ts. Types holds
--     the operations and the apply target as an interface, Overlay the plan's view of rows, Inputs
--     and Prepare prepareOperations, Compile compileWritePlan and createCommitEnvelope, which call
--     Relations; Replay, Returns and Split hold the proofs.
--   Transaction: src/core/apply/deltaLog.ts (DeltaLog) and the persistence of
--     src/core/apply/transaction.ts (Flush), with touchedModelsOf of src/core/apply/applyExecution.ts.
--     A write that storage refuses is a throw, and the state it leaves is kept. Agreement,
--     Covered and Markers are about the flush, Commit about persistCommit, OpValue about the JSON of
--     applied operations, Codec about the text of a delta, Cut about the reading of the log.
--   Tests: runs at concrete inputs and the theorems applied there.
--
-- Bounds and fuel
--   The sizing of a sequence tries at most the lengths up to 8, so its fuel is what is left of
--   them. The composite-key parser has the length of the text as fuel, as each segment takes a
--   character at least. The loop that steers a key around taken keys has one unit more than there
--   are keys taken: a run of it that ends does not meet one of them twice. Numbers of the order keys
--   are doubles, rounded at every step as the code's are, up to the end of their range, which keys
--   of more than 171 characters pass; they are exact for keys of up to 8 characters. A part of a composite key is taken to
--   have a length that is a safe integer. The final loop of deriveEffects has two rounds, which are
--   enough. The phases of a plan run on the fuel that the caller gives, and none is left out while
--   it lasts: `none` stands for a throw and for want of fuel.
--
-- Not modelled
--   The reading of persisted records (hydrate and the salvage of the ledger), the encoding of
--   values, buildScopeKey, and diagnostics counters but the one for unknown acknowledgements. A
--   model without an apply target reads no row in a plan, where the code throws; planning reads the
--   target of an operation's model first. Of the transaction: the replay of the log, the atomic
--   application with its abort and recovery, the timer of the flush and the runtime generation. Of
--   the other files under src/: field orders, stores, resets and the model language. Hooks and the
--   query and collection packages are outside.
pub mod Base
pub mod OrderKey
pub mod CompositeKey
pub mod Ledger
pub mod Scope
pub mod CommitBus
pub mod LoadingState
pub mod Ordering
pub mod Where
pub mod Envelope
pub mod Relations
pub mod Transaction
pub mod WritePolicies
mod Tests
