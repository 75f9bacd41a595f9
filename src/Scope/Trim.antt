-- ===== src/Scope/Trim.antt =====
-- `trimValue` of src/core/planes/scopeIndex.ts: what a cut keeps.
use react_native_dblayer.Base.{
  ℕ, suc, ◌+◌, ◌-◌, ◌≤◌, ◌≡◌, refl, subst, true, ◌||◌, not, List, [], ◌∷◌, arith, ap, sym, map,
  take, drop, zero, if◌then◌else◌, keep, length, leb, ◌==◌, Bool-cases, inl, inr,
}
use react_native_dblayer.Base.Str.{Str}
use react_native_dblayer.Base.StrSet
use react_native_dblayer.Base.StrSet.{StrSet}
use react_native_dblayer.Scope.Entry.{ScopeEntry, ScopeIndexValue, entry_id}
use react_native_dblayer.Scope.Reconcile.{trim_entries, trim_value}

abbrev pub count_free : StrSet → List ScopeEntry → ℕ
count_free protected_ids es = length (keep (λ e. not (StrSet.has e.id protected_ids)) es)

abbrev pub held_of : StrSet → List ScopeEntry → List ScopeEntry
held_of protected_ids es = keep (λ e. StrSet.has e.id protected_ids) es

trim_entries-free :
    (budget : ℕ) (protected_ids : StrSet) (es : List ScopeEntry)
    → count_free protected_ids (trim_entries budget protected_ids es).0 ≤ budget
unfolding trim_entries keep
trim_entries-free budget protected_ids [] = omega arith
trim_entries-free budget protected_ids (e ∷ es) = ground (
  arith,
  trim_entries-free budget protected_ids es,
  trim_entries-free (budget - 1) protected_ids es,
)

trim_entries-held :
    (budget : ℕ) (protected_ids : StrSet) (es : List ScopeEntry)
    → held_of protected_ids (trim_entries budget protected_ids es).0 ≡ held_of protected_ids es
unfolding trim_entries keep
trim_entries-held budget protected_ids [] = refl
trim_entries-held budget protected_ids (e ∷ es) = ground (
  arith,
  trim_entries-held budget protected_ids es,
  trim_entries-held (budget - 1) protected_ids es,
)

trim_entries-length :
    (budget : ℕ) (protected_ids : StrSet) (es : List ScopeEntry)
    → length (trim_entries budget protected_ids es).0
        + length (trim_entries budget protected_ids es).1
      ≡ length es
unfolding trim_entries
trim_entries-length budget protected_ids [] = refl
trim_entries-length budget protected_ids (e ∷ es) = ground (
  arith,
  trim_entries-length budget protected_ids es,
  trim_entries-length (budget - 1) protected_ids es,
)

trim_entries-none :
    (budget : ℕ) (protected_ids : StrSet) (es : List ScopeEntry)
    → length (trim_entries budget protected_ids es).1 ≡ 0
    → (trim_entries budget protected_ids es).0 ≡ es
unfolding trim_entries
trim_entries-none budget protected_ids [] h = refl
trim_entries-none budget protected_ids (e ∷ es) h = ground (
  arith,
  trim_entries-none budget protected_ids es,
  trim_entries-none (budget - 1) protected_ids es,
)

count_free-bound :
    (protected_ids : StrSet) (es : List ScopeEntry) → count_free protected_ids es ≤ length es
unfolding keep
count_free-bound protected_ids [] = omega arith
count_free-bound protected_ids (e ∷ es) = ground (arith, count_free-bound protected_ids es)

abbrev pub free_of : StrSet → List ScopeEntry → List ScopeEntry
free_of protected_ids es = keep (λ e. not (StrSet.has e.id protected_ids)) es

-- The free entries that stay and the ids that go, by position.
trim_entries-splits :
    (budget : ℕ) (protected_ids : StrSet) (es : List ScopeEntry)
    → (free_of protected_ids (trim_entries budget protected_ids es).0
        ≡ take budget (free_of protected_ids es))
      × ((trim_entries budget protected_ids es).1
          ≡ map entry_id (drop budget (free_of protected_ids es)))
unfolding trim_entries keep
trim_entries-splits zero protected_ids [] = (refl, refl)
trim_entries-splits (suc budget) protected_ids [] = (refl, refl)
trim_entries-splits zero protected_ids (e ∷ es) =
    let rest = trim_entries-splits zero protected_ids es in
    elim (Bool-cases (StrSet.has e.id protected_ids)) [
      | inl held ↦ ground (arith, rest)
      | inr free ↦ ground (arith, rest)
    ]
trim_entries-splits (suc budget) protected_ids (e ∷ es) =
    elim (Bool-cases (StrSet.has e.id protected_ids)) [
      | inl held ↦ ground (arith, trim_entries-splits (suc budget) protected_ids es)
      | inr free ↦ ground (arith, trim_entries-splits budget protected_ids es)
    ]

take_all : (n : ℕ) (es : List ScopeEntry) → length es ≤ n → (take n es ≡ es) × (drop n es ≡ [])
take_all zero [] h = (refl, refl)
take_all (suc n) [] h = (refl, refl)
take_all zero (e ∷ es) h = absurd (omega arith)
take_all (suc n) (e ∷ es) h =
    let (taken, dropped) = take_all n es (omega arith) in (ap (λ xs. e ∷ xs) taken, dropped)

-- What a cut to `max_rows` holds: the value and the ids that are trimmed.
abbrev pub IsCut : ScopeIndexValue → ℕ → StrSet → ScopeIndexValue × List Str → Type 0
IsCut value max_rows protected_ids r =
    (free_of protected_ids r.0.entries ≡ take max_rows (free_of protected_ids value.entries))
    × (r.1 ≡ map entry_id (drop max_rows (free_of protected_ids value.entries)))
    × (count_free protected_ids r.0.entries ≤ max_rows)
    × (held_of protected_ids r.0.entries ≡ held_of protected_ids value.entries)
    × (length r.0.entries + length r.1 ≡ length value.entries)
    × (r.0.generation ≡ (if length r.1 == 0 then value.generation else suc value.generation))
    × (r.0.coverage ≡ value.coverage)

few :
    (value : ScopeIndexValue) (max_rows : ℕ) (protected_ids : StrSet)
    → (leb (length value.entries) max_rows
        || length (trim_entries max_rows protected_ids value.entries).1 == 0)
      ≡ true
    → count_free protected_ids value.entries ≤ max_rows
few value max_rows protected_ids same = elim (Bool-cases (leb (length value.entries) max_rows)) [
  | inl small ↦ ground (arith, count_free-bound protected_ids value.entries)
  | inr large ↦
      subst (λ es. count_free protected_ids es ≤ max_rows)
        (trim_entries-none max_rows protected_ids value.entries (ground arith))
        (trim_entries-free max_rows protected_ids value.entries)
]

-- Of the entries that are not protected a cut to `max_rows` keeps the first `max_rows`, in their
-- order, and reports the ids of all the others, in their order. Every protected entry stays, in its
-- order, and so do the coverage and, unless something is trimmed, the generation; else that
-- advances by one.
pub trim_value-IsCut :
    (value : ScopeIndexValue) (max_rows : ℕ) (protected_ids : StrSet)
    → IsCut value max_rows protected_ids (trim_value value max_rows protected_ids)
unfolding trim_value
trim_value-IsCut value max_rows protected_ids =
    let found = trim_entries max_rows protected_ids value.entries in
    let free = trim_entries-free max_rows protected_ids value.entries in
    let held = trim_entries-held max_rows protected_ids value.entries in
    let size = trim_entries-length max_rows protected_ids value.entries in
    let (stay, go) = trim_entries-splits max_rows protected_ids value.entries in
    elim (Bool-cases (leb (length value.entries) max_rows || length found.1 == 0)) [
      | inl same ↦
          let little = few value max_rows protected_ids same in
          let (taken, dropped) = take_all max_rows (free_of protected_ids value.entries) little in
          rw same
            (sym taken, ap (map entry_id) (sym dropped), little, refl, omega arith, refl, refl)
      | inr cut ↦ rw cut (stay, go, free, held, size, ground arith, refl)
    ]
