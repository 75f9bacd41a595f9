-- ===== src/Envelope/Overlay.antt =====
-- The plan's view of the rows: `readPlannedRow`, `writePlannedRow` and `readPlannedRows` of
-- src/core/apply/commitEnvelope.ts.
use react_native_dblayer.Base.{
  Option, none, some, List, [], ◌∷◌, ◌≡◌, arith, if◌then◌else◌, ◌&&◌, inl, inr, Option-cases,
}
use react_native_dblayer.Base.Str.{Str, str_eq, str_eq_iff, text}
use react_native_dblayer.Base.StrMap
use react_native_dblayer.Base.StrMap.{StrMap}
use react_native_dblayer.Base.Value.{str}
use react_native_dblayer.Where.Filter.{Row, read_field}
use react_native_dblayer.Envelope.Types.{ApplyTarget}

-- The rows that the plan has written, `none` for a destroyed one, by model and id.
abbrev pub Overlay : Type 0
Overlay = StrMap (StrMap (Option Row))

-- `writePlannedRow`
unfoldable pub write_planned_row : Overlay → Str → Str → Option Row → Overlay
write_planned_row overlay model id row =
    StrMap.set model
      (StrMap.set id row (elim (StrMap.get model overlay) [ none ↦ [] | some rows ↦ rows ])) overlay

unfoldable pub overlaid : Overlay → Str → Str → Option (Option Row)
overlaid overlay model id = elim (StrMap.get model overlay) [
  | none ↦ none
  | some rows ↦ StrMap.get id rows
]

set_rows : List Row → StrMap Row → StrMap Row
set_rows [] rows = rows
set_rows (row ∷ more) rows =
    set_rows more (elim (read_field row (text "id")) [ str id ↦ StrMap.set id row rows | _ ↦ rows ])

patch_rows : StrMap (Option Row) → StrMap Row → StrMap Row
patch_rows [] rows = rows
patch_rows ((id, written) ∷ more) rows =
    patch_rows more
      (elim written [ none ↦ StrMap.delete id rows | some row ↦ StrMap.set id row rows ])

-- A model without a target reads no row where the code throws. Planning reads the target of an
-- operation's model before its rows.
module _ (targets : Str → Option ApplyTarget) where
  unfoldable pub stored_row : Str → Str → Option Row
  stored_row model id = elim (targets model) [ none ↦ none | some target ↦ target.read_row id ]

  -- `readPlannedRow`
  unfoldable pub read_planned_row : Overlay → Str → Str → Option Row
  read_planned_row overlay model id = elim (overlaid overlay model id) [
    | none ↦ stored_row model id
    | some written ↦ written
  ]

  -- `readPlannedRows`
  unfoldable pub read_planned_rows : Overlay → Str → List Row
  unfolding set_rows patch_rows
  read_planned_rows overlay model = StrMap.values (
      patch_rows (elim (StrMap.get model overlay) [ none ↦ [] | some rows ↦ rows ])
        (set_rows (elim (targets model) [ none ↦ [] | some target ↦ target.read_all_rows ]) []))

pub overlaid-write :
    (overlay : Overlay) (model id : Str) (row : Option Row) (m i : Str)
    → overlaid (write_planned_row overlay model id row) m i
      ≡ (if str_eq model m && str_eq id i then some row else overlaid overlay m i)
unfolding overlaid write_planned_row StrMap.get
overlaid-write overlay model id row m i = elim (Option-cases (StrMap.get model overlay)) [
  | inl n ↦ ground (
    arith,
    StrMap.get-set model m (StrMap.set id row []) overlay,
    StrMap.get-set id i row [],
    str_eq_iff model m,
  )
  | inr (rows, e) ↦ ground (
    arith,
    StrMap.get-set model m (StrMap.set id row rows) overlay,
    StrMap.get-set id i row rows,
    str_eq_iff model m,
  )
]
