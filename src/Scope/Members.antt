-- ===== src/Scope/Members.antt =====
-- Which rows are members after a complete payload is reconciled.
use react_native_dblayer.Base.{
  suc, ◌≡◌, refl, ap, sym, ◌∙◌, Bool, true, ◌&&◌, ◌||◌, not, Option, none, some, List, [], ◌∷◌,
  ◌++◌, map, arith, any, any-append, keep, drop, length, Bool-cases, Option-cases, inl, inr,
}
use react_native_dblayer.Base.Str.{Str, str_eq, str_eq_iff}
use react_native_dblayer.Base.StrSet
use react_native_dblayer.Base.StrSet.{StrSet}
use react_native_dblayer.Scope.Entry.{
  ScopeEntry, ScopeIndexValue, IncomingScopeRow, ReconcileResult, complete, insert_entry,
  sort_entries, has_id, row_id, entry_id,
}
use react_native_dblayer.OrderKey.Sequence.{keys_for_sequence}
use react_native_dblayer.Scope.Membership.{has-map-entry_id}
use react_native_dblayer.Scope.Placement.{
  taken_keys, held_keys, place_rows, placed, taken_with, key_for_row,
}
use react_native_dblayer.Scope.Reconcile.{
  copy_entry, has_row, result, is_none_held, same_ids, held_entries, detached_entries,
  place_complete, reconcile_complete,
}

has_id-insert_entry :
    (id : Str) (e : ScopeEntry) (es : List ScopeEntry)
    → has_id id (insert_entry e es) ≡ (str_eq e.id id || has_id id es)
unfolding has_id any insert_entry
has_id-insert_entry id e [] = refl
has_id-insert_entry id e (x ∷ es) = ground (arith, has_id-insert_entry id e es)

pub has_id-sort_entries :
    (id : Str) (es : List ScopeEntry) → has_id id (sort_entries es) ≡ has_id id es
unfolding has_id any sort_entries
has_id-sort_entries id [] = refl
has_id-sort_entries id (e ∷ es) =
    ground (arith, has_id-sort_entries id es, has_id-insert_entry id e (sort_entries es))

pub has_id-keep :
    (p : Str → Bool) (id : Str) (es : List ScopeEntry)
    → has_id id (keep (λ e. p e.id) es) ≡ (has_id id es && p id)
unfolding has_id any keep
has_id-keep p id [] = refl
has_id-keep p id (e ∷ es) = elim (Bool-cases (str_eq e.id id)) [
  | inl same ↦ ground (arith, has_id-keep p id es, ap p ((str_eq_iff e.id id).0 same))
  | inr other ↦ ground (arith, has_id-keep p id es)
]

has_id-copies : (id : Str) (es : List ScopeEntry) → has_id id (map copy_entry es) ≡ has_id id es
unfolding has_id any
has_id-copies id [] = refl
has_id-copies id (e ∷ es) = ground (arith, has_id-copies id es)

pub has_id-append :
    (id : Str) (es fs : List ScopeEntry) → has_id id (es ++ fs) ≡ (has_id id es || has_id id fs)
unfolding has_id
has_id-append id es fs = any-append (λ e. str_eq e.id id) es fs

has_id-placed :
    (id : Str) (row : IncomingScopeRow) (key : Str) (rest : Option (List ScopeEntry))
    (es : List ScopeEntry)
    → placed row key rest ≡ some es
    → (more : List ScopeEntry) × (rest ≡ some more)
      × (has_id id es ≡ (str_eq row.id id || has_id id more))
unfolding placed has_id any
has_id-placed id row key none es h = cc
has_id-placed id row key (some more) es h = (more, refl, sym (ap (has_id id) (inner h)))
  where
    inner : {a b : List ScopeEntry} → some a ≡ some b → a ≡ b
    inner h = cc

has_id-place_rows :
    (id : Str) (taken : StrSet) (rows : List IncomingScopeRow) (keys : List Str)
    (es : List ScopeEntry)
    → place_rows taken rows keys ≡ some es
    → has_id id es ≡ has_row id rows
unfolding place_rows has_row has_id any
has_id-place_rows id taken [] keys es h = sym (ap (has_id id) (inner h))
  where
    inner : {a b : List ScopeEntry} → some a ≡ some b → a ≡ b
    inner h = cc
has_id-place_rows id taken (row ∷ rows) keys es h =
    elim (Option-cases (key_for_row taken row keys)) [
      | inl gone ↦
          let is_none : place_rows taken (row ∷ rows) keys ≡ none = rw (gone, place_rows) refl in
          let clash : none ≡ some es = sym is_none ∙ h in absurd (ground arith)
      | inr (key, e) ↦
          let tail = place_rows (taken_with row key taken) rows (drop 1 keys) in
          let is_placed : place_rows taken (row ∷ rows) keys ≡ placed row key tail =
            rw (e, place_rows) refl in
          let (more, rest, members) = has_id-placed id row key tail es (sym is_placed ∙ h) in
          members
          ∙ ground
              (arith, has_id-place_rows id (taken_with row key taken) rows (drop 1 keys) more rest)
    ]

has_id-place_complete :
    (id : Str) (rows : List IncomingScopeRow) (held es : List ScopeEntry)
    → place_complete rows held ≡ some es
    → has_id id es ≡ has_row id rows
unfolding place_complete
has_id-place_complete id rows held es h =
    elim (Option-cases (keys_for_sequence (length rows) none none)) [
      | inl gone ↦
          let is_none : place_complete rows held ≡ none = rw (gone, place_complete) refl in
          let clash : none ≡ some es = sym is_none ∙ h in absurd (ground arith)
      | inr (keys, e) ↦
          let is_placed : place_complete rows held
              ≡ place_rows (taken_keys rows (held_keys held [])) rows keys =
            rw (e, place_complete) refl in
          has_id-place_rows id (taken_keys rows (held_keys held [])) rows keys es
            (sym is_placed ∙ h)
    ]

has_id-same_ids :
    (id : Str) (es : List ScopeEntry) (rows : List IncomingScopeRow)
    → same_ids es (map row_id rows) ≡ true
    → has_id id es ≡ has_row id rows
unfolding same_ids has_id has_row any
has_id-same_ids id [] [] h = refl
has_id-same_ids id [] (row ∷ rows) h = cc
has_id-same_ids id (e ∷ es) [] h = cc
has_id-same_ids id (e ∷ es) (row ∷ rows) h = ground (
  arith,
  has_id-same_ids id es rows,
  ap (λ x. str_eq x id) ((str_eq_iff e.id row.id).0 (ground arith)),
)

result-is :
    (next : ScopeIndexValue) (detached : List Str) (r : ReconcileResult)
    → result next detached ≡ some r
    → record { next = next; detached_ids = detached } ≡ r
unfolding result
result-is next detached r h = ground arith

-- What the members and the detached ids of a complete reconcile are.
abbrev pub Reconciles : ScopeIndexValue → List IncomingScopeRow → StrSet → ReconcileResult → Type 0
Reconciles previous rows protected_ids r =
    (id : Str)
    → (has_id id r.next.entries
        ≡ (has_row id rows || (has_id id previous.entries && StrSet.has id protected_ids)))
      × (StrSet.has id r.detached_ids ≡ (
          has_id id previous.entries
          && (not (has_row id rows) && not (StrSet.has id protected_ids))))

detached-members :
    (id : Str) (protected_ids : StrSet) (rows : List IncomingScopeRow) (es : List ScopeEntry)
    → StrSet.has id (map entry_id (detached_entries protected_ids rows es))
      ≡ (has_id id es && (not (has_row id rows) && not (StrSet.has id protected_ids)))
unfolding detached_entries
detached-members id protected_ids rows es =
    has-map-entry_id id _
    ∙ has_id-keep (λ x. not (has_row x rows) && not (StrSet.has x protected_ids)) id es

-- Where a reconcile with a complete payload does not throw, the members after it are the rows of
-- the payload and the protected members of before, and the detached ids are the members of before
-- that are neither.
pub reconcile_complete-Reconciles :
    (previous : ScopeIndexValue) (rows : List IncomingScopeRow) (protected_ids : StrSet)
    (r : ReconcileResult)
    → reconcile_complete previous rows protected_ids ≡ some r
    → Reconciles previous rows protected_ids r
unfolding reconcile_complete held_entries
reconcile_complete-Reconciles previous rows protected_ids r h id =
    let held = held_entries protected_ids rows previous.entries in
    let detached = map entry_id (detached_entries protected_ids rows previous.entries) in
    let left = detached-members id protected_ids rows previous.entries in
    elim (Bool-cases (is_none_held held && same_ids previous.entries (map row_id rows))) [
      | inl same ↦
          let is_same : reconcile_complete previous rows protected_ids
              ≡ result
                  (record {
                    generation = suc previous.generation;
                    coverage = complete;
                    entries = map copy_entry previous.entries;
                  })
                  detached =
            rw (same, reconcile_complete) refl in
          let r_is = result-is _ detached r (sym is_same ∙ h) in
          let rows_are = has_id-same_ids id previous.entries rows (ground arith) in
          rw (sym r_is) (ground (arith, has_id-copies id previous.entries, rows_are), left)
      | inr new ↦ elim (Option-cases (place_complete rows held)) [
        | inl gone ↦
            let is_none : reconcile_complete previous rows protected_ids ≡ none =
              rw (new, reconcile_complete) (rw gone refl) in
            let clash : none ≡ some r = sym is_none ∙ h in absurd (ground arith)
        | inr (es, e) ↦
            let is_placed : reconcile_complete previous rows protected_ids
                ≡ result
                    (record {
                      generation = suc previous.generation;
                      coverage = complete;
                      entries = sort_entries (es ++ map copy_entry held);
                    })
                    detached =
              rw (new, reconcile_complete) (rw e refl) in
            let r_is = result-is _ detached r (sym is_placed ∙ h) in
            let kept =
              has_id-keep (λ x. not (has_row x rows) && StrSet.has x protected_ids) id
                previous.entries in
            rw (sym r_is) (
              ground (
                arith,
                has_id-sort_entries id (es ++ map copy_entry held),
                has_id-append id es (map copy_entry held),
                has_id-copies id held,
                has_id-place_complete id rows held es e,
                kept,
              ),
              left,
            )
      ]
    ]
