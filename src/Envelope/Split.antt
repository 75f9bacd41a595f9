-- ===== src/Envelope/Split.antt =====
-- The two lists of a commit envelope of src/core/apply/commitEnvelope.ts.
use react_native_dblayer.Base.{if◌then◌else◌, List, [], ◌∷◌}
use react_native_dblayer.Base.Str.{Str}
use react_native_dblayer.Base.Value.{Value}
use react_native_dblayer.Envelope.Types.{AppliedOp}
use react_native_dblayer.Envelope.Compile.{is_scope_operation}

-- The operations run one after another on two stores: scope work on the second, all else on the
-- first.
module _ {R S : Type 0} (entity_step : AppliedOp → R → R) (scope_step : AppliedOp → S → S) where
  abbrev pub run_op : AppliedOp → R × S → R × S
  run_op op (r, s) = if is_scope_operation op then (r, scope_step op s) else (entity_step op r, s)

  unfoldable pub run_ops : List AppliedOp → R × S → R × S
  run_ops [] stores = stores
  run_ops (op ∷ ops) stores = run_ops ops (run_op op stores)
