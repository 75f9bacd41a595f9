-- ===== src/Scope/Placement.antt =====
-- The keys that `reconcileNext` gives the rows of a complete payload.
use react_native_dblayer.Base.{
  ℕ, zero, suc, true, false, Option, none, some, List, [], ◌∷◌, if◌then◌else◌, length, get_elem?,
  drop,
}
use react_native_dblayer.Base.Str.{Str}
use react_native_dblayer.Base.StrSet
use react_native_dblayer.Base.StrSet.{StrSet}
use react_native_dblayer.OrderKey.Sequence.{keys_for_sequence}
use react_native_dblayer.Scope.Entry.{ScopeEntry, IncomingScopeRow}

-- `keysForSequence(1, key, upper)[0]!`
unfoldable pub next_key : Str → Option Str → Option Str
next_key key upper = elim (keys_for_sequence 1 (some key) upper) [
  | none ↦ none
  | some [] ↦ none
  | some (next ∷ more) ↦ some next
]

-- `while (taken.has(key)) key = keysForSequence(1, key, upper)[0]!`, on fuel.
unfoldable pub free_key : ℕ → StrSet → Str → Option Str → Option Str
free_key zero taken key upper = if StrSet.has key taken then none else some key
free_key (suc fuel) taken key upper = elim (StrSet.has key taken) [
  | false ↦ some key
  | true ↦ elim (next_key key upper) [ none ↦ none | some next ↦ free_key fuel taken next upper ]
]

unfoldable pub taken_keys : List IncomingScopeRow → StrSet → StrSet
taken_keys [] taken = taken
taken_keys (row ∷ rows) taken =
    taken_keys rows (elim row.order_key [ none ↦ taken | some key ↦ StrSet.add key taken ])

unfoldable pub held_keys : List ScopeEntry → StrSet → StrSet
held_keys [] taken = taken
held_keys (e ∷ es) taken = held_keys es (StrSet.add e.order_key taken)

unfoldable pub placed : IncomingScopeRow → Str → Option (List ScopeEntry) → Option (List ScopeEntry)
placed row key none = none
placed row key (some es) = some (record { id = row.id; order_key = key } ∷ es)

-- The key of one row of a complete payload: its own, or the first free one from its generated key
-- on. The fuel is one more than the number of keys taken: a run that ends does not meet the same taken
-- key twice.
unfoldable pub key_for_row : StrSet → IncomingScopeRow → List Str → Option Str
unfolding free_key
key_for_row taken row keys = elim row.order_key [
  | some own ↦ some own
  | none ↦ elim keys [
    | [] ↦ none
    | key ∷ more ↦ free_key (suc (length taken)) taken key (get_elem? more 0)
  ]
]

unfoldable pub taken_with : IncomingScopeRow → Str → StrSet → StrSet
taken_with row key taken = elim row.order_key [ some own ↦ taken | none ↦ StrSet.add key taken ]

-- The generated keys are walked beside the rows.
unfoldable pub place_rows : StrSet → List IncomingScopeRow → List Str → Option (List ScopeEntry)
unfolding placed taken_with
place_rows taken [] keys = some []
place_rows taken (row ∷ rows) keys = elim (key_for_row taken row keys) [
  | none ↦ none
  | some key ↦ placed row key (place_rows (taken_with row key taken) rows (drop 1 keys))
]
