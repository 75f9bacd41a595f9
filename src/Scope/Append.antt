-- ===== src/Scope/Append.antt =====
-- The append fast path of `applyDelta` computes what its merge computes.
use react_native_dblayer.Base.{
  ◌≡◌, refl, ap, sym, ◌∙◌, Bool, true, false, not, List, [], ◌∷◌, ◌++◌, arith, any, every, keep,
  Bool-cases, inl, inr,
}
use react_native_dblayer.Base.Str.{Str, str_eq, str_eq_iff, str_lt, str_lt_irrefl, str_lt_trans}
use react_native_dblayer.Base.StrSet
use react_native_dblayer.Base.StrSet.{StrSet}
use react_native_dblayer.Scope.Entry.{
  ScopeEntry, entry_lt, insert_entry, sort_entries, has_id, is_ascending,
}
use react_native_dblayer.Scope.Reconcile.{merge_by_key}
use react_native_dblayer.Scope.Methods.{delta_entries, is_pure_append, is_past, last_order_key}

has_id-absent :
    (id : Str) (members : StrSet) (es : List ScopeEntry)
    → every (λ e. not (StrSet.has e.id members)) es ≡ true
    → StrSet.has id members ≡ true
    → has_id id es ≡ false
unfolding has_id any every
has_id-absent id members [] h m = refl
has_id-absent id members (e ∷ es) h m = elim (Bool-cases (str_eq e.id id)) [
  | inl same ↦ ground (arith, ap (λ x. StrSet.has x members) ((str_eq_iff e.id id).0 same))
  | inr other ↦ ground (arith, has_id-absent id members es)
]

keep-absent :
    (members : StrSet) (base append : List ScopeEntry)
    → every (λ e. not (StrSet.has e.id members)) append ≡ true
    → every (λ e. StrSet.has e.id members) base ≡ true
    → keep (λ e. not (has_id e.id append)) base ≡ base
unfolding keep every
keep-absent members [] append h m = refl
keep-absent members (e ∷ es) append h m =
    ground (arith, keep-absent members es append, has_id-absent e.id members append)

entry_lt_asym : (e f : ScopeEntry) → entry_lt e f ≡ true → entry_lt f e ≡ false
unfolding entry_lt
entry_lt_asym e f h = ground (
  arith,
  str_eq_iff e.order_key f.order_key,
  str_eq_iff f.order_key e.order_key,
  str_lt_irrefl e.order_key,
  str_lt_irrefl f.order_key,
  str_lt_irrefl e.id,
  str_lt_trans e.order_key f.order_key e.order_key,
  str_lt_trans e.id f.id e.id,
)

entry_lt_of_key : (e f : ScopeEntry) → str_lt e.order_key f.order_key ≡ true → entry_lt e f ≡ true
unfolding entry_lt
entry_lt_of_key e f h = ground arith

every-insert_entry :
    (p : ScopeEntry → Bool) (e : ScopeEntry) (es : List ScopeEntry)
    → p e ≡ true
    → every p es ≡ true
    → every p (insert_entry e es) ≡ true
unfolding every insert_entry
every-insert_entry p e [] he h = ground arith
every-insert_entry p e (x ∷ es) he h = ground (arith, every-insert_entry p e es he)

every-sort_entries :
    (p : ScopeEntry → Bool) (es : List ScopeEntry)
    → every p es ≡ true
    → every p (sort_entries es) ≡ true
unfolding every sort_entries
every-sort_entries p [] h = refl
every-sort_entries p (e ∷ es) h =
    every-insert_entry p e (sort_entries es) (ground arith) (every-sort_entries p es (ground arith))

insert_entry-first :
    (e : ScopeEntry) (es : List ScopeEntry)
    → every (λ x. str_lt e.order_key x.order_key) es ≡ true
    → insert_entry e es ≡ e ∷ es
unfolding insert_entry every
insert_entry-first e [] h = refl
insert_entry-first e (x ∷ es) h = ground (arith, entry_lt_of_key e x, entry_lt_asym e x)

sort_entries-append :
    (base append : List ScopeEntry)
    → is_ascending base ≡ true
    → is_past (last_order_key base) append ≡ true
    → sort_entries (base ++ append) ≡ base ++ sort_entries append
unfolding sort_entries insert_entry is_ascending is_past last_order_key
sort_entries-append [] append up past = refl
sort_entries-append (e ∷ []) append up past =
    insert_entry-first e (sort_entries append) (every-sort_entries _ append past)
sort_entries-append (e ∷ f ∷ base) append up past =
    let rest : sort_entries (f ∷ base ++ append) ≡ f ∷ base ++ sort_entries append =
      sort_entries-append (f ∷ base) append (ground arith) past in
    let above : entry_lt e f ≡ true = ground arith in
    ap (insert_entry e) rest ∙ (rw (entry_lt_asym e f above) refl)

-- For a base in ascending order whose ids are all members: whatever is appended, and whether or
-- not the test for a pure append allows the fast path, the entries are those of the merge.
pub delta_entries-merge_by_key :
    (members : StrSet) (base append : List ScopeEntry) (removal : List Str)
    → is_ascending base ≡ true
    → every (λ e. StrSet.has e.id members) base ≡ true
    → delta_entries (is_pure_append members base append removal) base append
      ≡ merge_by_key base append
unfolding delta_entries is_pure_append merge_by_key
delta_entries-merge_by_key members base append removal up inside =
    elim (Bool-cases (is_pure_append members base append removal)) [
      | inr merged ↦ rw (merged, is_pure_append) refl
      | inl pure ↦
          rw (pure, is_pure_append)
            (rw (keep-absent members base append (ground arith) inside)
              (sym (sort_entries-append base append up (ground arith))))
    ]
