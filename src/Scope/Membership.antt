-- ===== src/Scope/Membership.antt =====
-- The membership maps of the scope index under `commit`: the sets of members by scope and the
-- sets of scopes by row, beside the entries that are committed.
use react_native_dblayer.Base.{
  ◌≡◌, refl, ap, sym, ◌∙◌, Bool, true, ◌&&◌, ◌||◌, not, some, List, [], ◌∷◌, map, arith,
  if◌then◌else◌, any, keep, Bool-cases, Option-cases, inl, inr,
}
use react_native_dblayer.Base.Str.{Str, str_eq, str_eq_iff, str_eq_refl}
use react_native_dblayer.Base.StrSet
use react_native_dblayer.Base.StrSet.{StrSet}
use react_native_dblayer.Base.StrMap
use react_native_dblayer.Base.StrMap.{StrMap}
use react_native_dblayer.Scope.Entry.{ScopeEntry, has_id, entry_id}
use react_native_dblayer.Scope.State.{
  set_at, without_empty_set, drop_rows, hold_rows, add_ids, departed_ids,
}

pub has-add_ids :
    (id : Str) (ids : List Str) (members : StrSet)
    → StrSet.has id (add_ids ids members) ≡ (StrSet.has id ids || StrSet.has id members)
unfolding add_ids StrSet.has
has-add_ids id [] members = refl
has-add_ids id (j ∷ ids) members =
    ground (arith, has-add_ids id ids (StrSet.add j members), StrSet.has-add j id members)

pub has-map-entry_id :
    (id : Str) (es : List ScopeEntry) → StrSet.has id (map entry_id es) ≡ has_id id es
unfolding has_id any StrSet.has
has-map-entry_id id [] = refl
has-map-entry_id id (e ∷ es) = ground (arith, has-map-entry_id id es)

has_id-keep_absent :
    (id : Str) (ids : StrSet) (es : List ScopeEntry)
    → has_id id (keep (λ e. not (StrSet.has e.id ids)) es)
      ≡ (has_id id es && not (StrSet.has id ids))
unfolding has_id any keep
has_id-keep_absent id ids [] = refl
has_id-keep_absent id ids (e ∷ es) = elim (Bool-cases (str_eq e.id id)) [
  | inl same ↦ ground (
    arith,
    has_id-keep_absent id ids es,
    ap (λ x. StrSet.has x ids) ((str_eq_iff e.id id).0 same),
  )
  | inr other ↦ ground (arith, has_id-keep_absent id ids es)
]

pub has-departed_ids :
    (id : Str) (previous : List ScopeEntry) (next_ids : StrSet)
    → StrSet.has id (departed_ids previous next_ids)
      ≡ (has_id id previous && not (StrSet.has id next_ids))
unfolding departed_ids
has-departed_ids id previous next_ids =
    has-map-entry_id id (keep (λ e. not (StrSet.has e.id next_ids)) previous)
    ∙ has_id-keep_absent id next_ids previous

set_at-set :
    (id j : Str) (keys : StrSet) (m : StrMap StrSet)
    → set_at j (StrMap.set id keys m) ≡ (if str_eq id j then keys else set_at j m)
set_at-set id j keys m = rw (StrMap.get-set id j keys m, set_at) (ground arith)

set_at-without_empty_set :
    (id j : Str) (keys : StrSet) (m : StrMap StrSet)
    → set_at j (without_empty_set id keys m) ≡ (if str_eq id j then keys else set_at j m)
unfolding without_empty_set
set_at-without_empty_set id j [] m = rw (StrMap.get-delete id j m, set_at) (ground arith)
set_at-without_empty_set id j (k ∷ keys) m = set_at-set id j (k ∷ keys) m

pub has-hold_rows :
    (key k : Str) (ids : List Str) (id : Str) (m : StrMap StrSet)
    → StrSet.has k (set_at id (hold_rows key ids m))
      ≡ ((str_eq key k && StrSet.has id ids) || StrSet.has k (set_at id m))
unfolding hold_rows StrSet.has
has-hold_rows key k [] id m = ground arith
has-hold_rows key k (j ∷ ids) id m =
    let m' : StrMap StrSet = StrMap.set j (StrSet.add key (set_at j m)) m in
    let rest = has-hold_rows key k ids id m' in
    let here : set_at id m' ≡ (if str_eq j id then StrSet.add key (set_at j m) else set_at id m) =
      set_at-set j id (StrSet.add key (set_at j m)) m in
    elim (Bool-cases (str_eq j id)) [
      | inr other ↦
          let same : set_at id m' ≡ set_at id m = here ∙ rw other refl in
          ground (arith, rest, ap (StrSet.has k) same)
      | inl both ↦
          let is_id : j ≡ id = (str_eq_iff j id).0 both in
          let grown : set_at id m' ≡ StrSet.add key (set_at id m) = here ∙ rw (both, is_id) refl in
          ground (arith, rest, ap (StrSet.has k) grown, StrSet.has-add key k (set_at id m))
    ]

-- What the loop over departed rows leaves, where it does not throw.
abbrev pub Drops : Str → List Str → StrMap StrSet → StrMap StrSet → Type 0
Drops key ids m m' =
    (k id : Str)
    → StrSet.has k (set_at id m')
      ≡ (not (str_eq key k && StrSet.has id ids) && StrSet.has k (set_at id m))

abbrev pub are_distinct : List Str → Bool
are_distinct [] = true
are_distinct (id ∷ ids) = not (StrSet.has id ids) && are_distinct ids

drop_one :
    (key j : Str) (keys : StrSet) (m : StrMap StrSet)
    → StrMap.get j m ≡ some keys
    → (k id : Str)
    → StrSet.has k (set_at id (without_empty_set j (StrSet.delete key keys) m))
      ≡ (not (str_eq key k && str_eq j id) && StrSet.has k (set_at id m))
drop_one key j keys m at k id = elim (Bool-cases (str_eq j id)) [
  | inr other ↦
      let same : set_at id (without_empty_set j (StrSet.delete key keys) m) ≡ set_at id m =
        set_at-without_empty_set j id (StrSet.delete key keys) m ∙ rw other refl in
      ground (arith, ap (StrSet.has k) same)
  | inl both ↦
      let cut : set_at id (without_empty_set j (StrSet.delete key keys) m)
          ≡ StrSet.delete key keys =
        set_at-without_empty_set j id (StrSet.delete key keys) m ∙ rw both refl in
      let is_id : j ≡ id = (str_eq_iff j id).0 both in
      let here : set_at id m ≡ keys = rw (sym is_id) (rw (at, set_at) refl) in
      ground (arith, ap (StrSet.has k) cut, ap (StrSet.has k) here, StrSet.has-delete key k keys)
]

pub drop_rows-Drops :
    (key : Str) (ids : List Str) (m : StrMap StrSet)
    → are_distinct ids ≡ true
    → ((id : Str) → StrSet.has id ids ≡ true → StrSet.has key (set_at id m) ≡ true)
    → (m' : StrMap StrSet) × (drop_rows key ids m ≡ some m') × Drops key ids m m'
unfolding drop_rows StrSet.has
drop_rows-Drops key [] m d h = (m, refl, λ k id. ground arith)
drop_rows-Drops key (j ∷ ids) m d h = elim (Option-cases (StrMap.get j m)) [
  | inl gone ↦
      let held : StrSet.has key (set_at j m) ≡ true = h j (rw (str_eq_refl j) refl) in
      let empty : set_at j m ≡ [] = rw (gone, set_at) refl in
      absurd (ground (arith, held, ap (StrSet.has key) empty))
  | inr (keys, at) ↦
      let m1 : StrMap StrSet = without_empty_set j (StrSet.delete key keys) m in
      let one = drop_one key j keys m at in
      let (m', e, drops) = drop_rows-Drops key ids m1 (ground arith) (λ id inside.
        elim (Bool-cases (str_eq j id)) [
          | inl both ↦
              absurd (ground (arith, ap (λ x. StrSet.has x ids) ((str_eq_iff j id).0 both)))
          | inr other ↦ ground (arith, one key id, h id)
        ]) in
      (m', rw (at, drop_rows) e, λ k id. ground (arith, drops k id, one k id))
]
