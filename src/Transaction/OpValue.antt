-- ===== src/Transaction/OpValue.antt =====
-- The JSON values of the applied operations of src/types/core.apply.ops.types.ts, which a delta
-- holds. A field that is undefined is left out, as JSON leaves it out.
use react_native_dblayer.Base.{Bool, true, false, Option, none, some, List, [], ◌∷◌, map}
use react_native_dblayer.Base.Str.{Str, text}
use react_native_dblayer.Base.StrMap.{StrMap}
use react_native_dblayer.Base.Value.{pos, int, Value, bool, num, str, arr, obj, Fields, done, field}
use react_native_dblayer.Scope.Entry.{
  ScopeCoverage, complete, page, delta, ScopeEntry, ScopeIndexValue, IncomingScopeRow,
}
use react_native_dblayer.Envelope.Types.{AppliedOp, upsert, destroy, scope, scope_delta}
use react_native_dblayer.Transaction.DeltaLog.{items_of}

fields_of : StrMap Value → Fields
fields_of [] = done
fields_of ((k, v) ∷ row) = field k v (fields_of row)

with_field : Str → Option Value → Fields → Fields
with_field k none fields = fields
with_field k (some value) fields = field k value fields

abbrev texts : List Str → Value
texts ids = arr (items_of (map str ids))

coverage_text : ScopeCoverage → Str
coverage_text complete = text "complete"
coverage_text page = text "page"
coverage_text delta = text "delta"

abbrev entry_value : ScopeEntry → Value
entry_value e = obj (field (text "id") (str e.id) (field (text "orderKey") (str e.order_key) done))

unfoldable pub scope_value : ScopeIndexValue → Value
unfolding items_of coverage_text
scope_value value = obj (
    field (text "generation") (num (int (pos value.generation))) (
      field (text "coverage") (str (coverage_text value.coverage))
        (field (text "entries") (arr (items_of (map entry_value value.entries))) done)))

incoming_value : IncomingScopeRow → Value
unfolding with_field
incoming_value row = obj (
    field (text "id") (str row.id) (
      with_field (text "orderKey") (elim row.order_key [ none ↦ none | some key ↦ some (str key) ])
        done))

replace_field : Bool → Fields → Fields
replace_field false fields = fields
replace_field true fields = field (text "origin") (str (text "replace")) fields

-- The object of an applied operation.
unfoldable pub op_value : AppliedOp → Value
unfolding items_of fields_of with_field scope_value incoming_value replace_field
op_value (upsert op) = obj (
    field (text "kind") (str (text "upsert")) (
      field (text "model") (str op.model) (
        field (text "rows") (arr (items_of (map (λ row. obj (fields_of row)) op.rows)))
          (replace_field op.is_replace done))))
op_value (destroy op) = obj (
    field (text "kind") (str (text "destroy")) (
      field (text "model") (str op.model) (
        field (text "ids") (texts op.ids) (
          with_field (text "tombstone") (elim op.tombstone [ none ↦ none | some b ↦ some (bool b) ])
            (replace_field op.is_replace (
              with_field (text "replacedBy")
                (elim op.replaced_by [ none ↦ none | some id ↦ some (str id) ]) done))))))
op_value (scope op) = obj (
    field (text "kind") (str (text "scope")) (
      field (text "model") (str op.model) (
        field (text "scopeKey") (str op.scope_key)
          (field (text "next") (scope_value op.next) done))))
op_value (scope_delta op) = obj (
    field (text "kind") (str (text "scope-delta")) (
      field (text "model") (str op.model) (
        field (text "scopeKey") (str op.scope_key) (
          field (text "append") (arr (items_of (map incoming_value op.append)))
            (field (text "detach") (texts op.detach) done)))))
