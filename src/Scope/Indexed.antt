-- ===== src/Scope/Indexed.antt =====
-- `indexMembership` of src/core/planes/scopeIndex.ts, by the path that compares and by the append
-- path: the membership maps after it and the value that lands.
use react_native_dblayer.Base.{
  ◌≡◌, refl, ap, sym, ◌∙◌, Bool, true, false, ◌&&◌, ◌||◌, not, Option, none, some, List, [], ◌∷◌,
  map, arith, if◌then◌else◌, any, keep, Bool-cases, inl, inr,
}
use react_native_dblayer.Base.Str.{Str, str_eq, str_eq_iff}
use react_native_dblayer.Base.StrSet
use react_native_dblayer.Base.StrSet.{StrSet}
use react_native_dblayer.Base.StrMap
use react_native_dblayer.Base.StrMap.{StrMap}
use react_native_dblayer.Scope.Entry.{ScopeEntry, ScopeIndexValue, has_id, entry_id}
use react_native_dblayer.Scope.State.{
  State, set_at, hold_rows, add_ids, departed_ids, entries_of, index_membership, index_commit,
  landed,
}
use react_native_dblayer.Scope.Methods.{has_member, keys_of}
use react_native_dblayer.Scope.Membership.{
  are_distinct, drop_rows-Drops, has-add_ids, has-departed_ids, has-hold_rows, has-map-entry_id,
}

-- The members of every scope are the ids of its committed entries, and the scopes of every row
-- are those that it is a member of.
pub record IsCoherent (s : State) : Type 0 where
  pub members :
      (key id : Str) → has_member key id s ≡ has_id id (entries_of (StrMap.get key s.scopes))
  pub rows : (key id : Str) → StrSet.has key (keys_of id s) ≡ has_member key id s

-- What `indexMembership` leaves of the membership maps.
abbrev Indexes : Str → StrSet → List Str → State → State → Type 0
Indexes key ids departed s s' =
    ((k id : Str)
      → has_member k id s' ≡ (if str_eq key k then StrSet.has id ids else has_member k id s))
    × ((k id : Str)
        → StrSet.has k (keys_of id s') ≡ (
            (str_eq key k && StrSet.has id ids)
            || (not (str_eq key k && StrSet.has id departed) && StrSet.has k (keys_of id s))))
    × (s'.scopes ≡ s.scopes)

pub index_membership-Indexes :
    (key : Str) (ids : StrSet) (departed : List Str) (s : State)
    → are_distinct departed ≡ true
    → ((id : Str) → StrSet.has id departed ≡ true → StrSet.has key (keys_of id s) ≡ true)
    → (s' : State) × (index_membership key ids departed s ≡ some s') × Indexes key ids departed s s'
unfolding index_membership has_member keys_of
index_membership-Indexes key ids departed s d h =
    let (m, e, drops) = drop_rows-Drops key departed s.keys_by_row d h in
    (
      record s {
        keys_by_row = hold_rows key ids m;
        member_sets = StrMap.set key ids s.member_sets;
      },
      rw (e, index_membership) refl,
      (
        (λ k id. rw (StrMap.get-set key k ids s.member_sets, set_at) (ground arith)),
        (λ k id. ground (arith, has-hold_rows key k ids id m, drops k id)),
        refl,
      ),
    )

has_id-keep :
    (p : ScopeEntry → Bool) (id : Str) (es : List ScopeEntry)
    → has_id id es ≡ false
    → has_id id (keep p es) ≡ false
unfolding has_id any keep
has_id-keep p id [] h = refl
has_id-keep p id (e ∷ es) h = ground (arith, has_id-keep p id es)

are_distinct-keep :
    (p : ScopeEntry → Bool) (es : List ScopeEntry)
    → are_distinct (map entry_id es) ≡ true
    → are_distinct (map entry_id (keep p es)) ≡ true
unfolding keep
are_distinct-keep p [] h = refl
are_distinct-keep p (e ∷ es) h = ground (
  arith,
  are_distinct-keep p es,
  has_id-keep p e.id es,
  has-map-entry_id e.id es,
  has-map-entry_id e.id (keep p es),
)

-- A commit of a value under a key, as the maps show it.
abbrev pub Commits : Str → ScopeIndexValue → State → Option State → Type 0
Commits key next s result =
    (s' : State) × (result ≡ some s')
    × IsCoherent s'
    × ((k : Str)
        → StrMap.get k s'.scopes ≡ (if str_eq key k then some next else StrMap.get k s.scopes))

entries_of-set :
    (key k : Str) (next : ScopeIndexValue) (m : StrMap ScopeIndexValue)
    → entries_of (StrMap.get k (StrMap.set key next m))
      ≡ (if str_eq key k then next.entries else entries_of (StrMap.get k m))
entries_of-set key k next m = elim (Bool-cases (str_eq key k)) [
  | inl same ↦ ap entries_of (StrMap.get-set key k next m) ∙ rw same refl
  | inr other ↦ ap entries_of (StrMap.get-set key k next m) ∙ rw other refl
]

has_none : (id : Str) → StrSet.has id [] ≡ false
unfolding StrSet.has
has_none id = refl

-- A landing whose member set has the ids of the new entries and that takes away the ids of the
-- old entries that are not among them.
indexed-Commits :
    (key : Str) (next : ScopeIndexValue) (ids : StrSet) (departed : List Str) (s : State)
    → IsCoherent s
    → are_distinct departed ≡ true
    → ((id : Str) → StrSet.has id ids ≡ has_id id next.entries)
    → ((id : Str)
        → StrSet.has id departed
          ≡ (has_id id (entries_of (StrMap.get key s.scopes)) && not (StrSet.has id ids)))
    → Commits key next s (landed key next (index_membership key ids departed s))
unfolding landed has_member keys_of
indexed-Commits key next ids departed s c d ids_are departed_are =
    let previous : List ScopeEntry = entries_of (StrMap.get key s.scopes) in
    let (u, e, (members, rows, scopes)) =
      index_membership-Indexes key ids departed s d
        (λ id left. ground (arith, departed_are id, c.rows key id, c.members key id)) in
    let entries : (k : Str)
        → entries_of (StrMap.get k (StrMap.set key next u.scopes))
          ≡ (if str_eq key k then next.entries else entries_of (StrMap.get k s.scopes)) =
      λ k. entries_of-set key k next u.scopes ∙ rw scopes refl in
    (
      record u { scopes = StrMap.set key next u.scopes; dirty = StrSet.add key u.dirty },
      rw (e, landed) refl,
      record {
        members = λ k id.
            ground (arith, members k id, ids_are id, c.members k id, ap (has_id id) (entries k));
        rows = λ k id. elim (Bool-cases (str_eq key k)) [
          | inr other ↦ ground (arith, rows k id, members k id, c.rows k id)
          | inl same ↦
              let there : has_id id (entries_of (StrMap.get k s.scopes)) ≡ has_id id previous =
                ap (λ x. has_id id (entries_of (StrMap.get x s.scopes)))
                  (sym ((str_eq_iff key k).0 same)) in
              ground (
                arith,
                rows k id,
                members k id,
                c.rows k id,
                c.members k id,
                there,
                departed_are id,
              )
        ];
      },
      λ k. StrMap.get-set key k next u.scopes ∙ rw scopes refl,
    )

pub landed-Commits :
    (key : Str) (next : ScopeIndexValue) (s : State)
    → IsCoherent s
    → are_distinct (map entry_id (entries_of (StrMap.get key s.scopes))) ≡ true
    → Commits key next s (landed key next (index_commit key (StrMap.get key s.scopes) next s))
unfolding index_commit departed_ids
landed-Commits key next s c d =
    let ids : StrSet = add_ids (map entry_id next.entries) [] in
    let previous : List ScopeEntry = entries_of (StrMap.get key s.scopes) in
    indexed-Commits key next ids (departed_ids previous ids) s c
      (are_distinct-keep (λ x. not (StrSet.has x.id ids)) previous d)
      (λ id. ground (
        arith,
        has-add_ids id (map entry_id next.entries) [],
        has-map-entry_id id next.entries,
        has_none id,
      ))
      (λ id. has-departed_ids id previous ids)

-- The ids that the entries under a key have after a commit: those of the new value, which on the
-- append path are to be the ids there were and the added ones.
abbrev pub id_after : Option (List Str) → List ScopeEntry → List ScopeEntry → Str → Bool
id_after none previous next id = has_id id next
id_after (some added) previous next id = has_id id previous || StrSet.has id added

pub appended-Commits :
    (key : Str) (next : ScopeIndexValue) (added : List Str) (s : State)
    → IsCoherent s
    → ((id : Str)
        → has_id id next.entries
          ≡ id_after (some added) (entries_of (StrMap.get key s.scopes)) next.entries id)
    → Commits key next s
        (landed key next (index_membership key (add_ids added (set_at key s.member_sets)) [] s))
unfolding has_member
appended-Commits key next added s c grown =
    let ids : StrSet = add_ids added (set_at key s.member_sets) in
    let ids_are : (id : Str) → StrSet.has id ids ≡ has_id id next.entries = λ id.
      ground (arith, has-add_ids id added (set_at key s.member_sets), c.members key id, grown id) in
    indexed-Commits key next ids [] s c refl ids_are
      (λ id. ground (arith, has_none id, ids_are id, grown id))
