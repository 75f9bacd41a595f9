-- ===== src/Scope/Entry.antt =====
-- Scope entries, their order and the checks on a scope value.
use react_native_dblayer.Base.{
  ℕ, Bool, true, false, ◌&&◌, ◌||◌, not, Option, List, [], ◌∷◌, leb, ◌==◌, if◌then◌else◌, any,
  every,
}
use react_native_dblayer.Base.Str.{Str, str_eq, str_lt}
use react_native_dblayer.Base.StrSet
use react_native_dblayer.Base.StrSet.{StrSet}
use react_native_dblayer.CompositeKey.{max_safe_integer}
use react_native_dblayer.OrderKey.{is_order_key}

pub data ScopeCoverage : Type 0 where
  complete page delta : ScopeCoverage

pub record ScopeEntry : Type 0 where
  pub id : Str
  pub order_key : Str

pub record ScopeIndexValue : Type 0 where
  pub generation : ℕ
  pub coverage : ScopeCoverage
  pub entries : List ScopeEntry

pub record IncomingScopeRow : Type 0 where
  pub id : Str
  pub order_key : Option Str

pub record ReconcileResult : Type 0 where
  pub next : ScopeIndexValue
  pub detached_ids : List Str

abbrev pub is_complete : ScopeCoverage → Bool
is_complete complete = true
is_complete _ = false

abbrev pub is_page : ScopeCoverage → Bool
is_page page = true
is_page _ = false

abbrev pub is_delta : ScopeCoverage → Bool
is_delta delta = true
is_delta _ = false

-- `compareEntries(left, right) < 0`: by order key, then by id.
unfoldable pub entry_lt : ScopeEntry → ScopeEntry → Bool
entry_lt l r =
    str_lt l.order_key r.order_key || (str_eq l.order_key r.order_key && str_lt l.id r.id)

-- A stable sort by `compareEntries`.
unfoldable pub insert_entry : ScopeEntry → List ScopeEntry → List ScopeEntry
insert_entry e [] = e ∷ []
insert_entry e (x ∷ xs) =
    let rest = insert_entry e xs in if entry_lt x e then x ∷ rest else e ∷ x ∷ xs

unfoldable pub sort_entries : List ScopeEntry → List ScopeEntry
sort_entries [] = []
sort_entries (e ∷ es) = insert_entry e (sort_entries es)

-- `deduplicateScopeEntriesById`: a later occurrence takes the place of the first.
module _ {A : Type 0} (id_of : A → Str) where
  unfoldable pub put_by_id : A → List A → List A
  put_by_id a [] = a ∷ []
  put_by_id a (x ∷ xs) =
      let rest = put_by_id a xs in if str_eq (id_of x) (id_of a) then a ∷ xs else x ∷ rest

  unfoldable pub put_all_by_id : List A → List A → List A
  put_all_by_id [] by_id = by_id
  put_all_by_id (a ∷ more) by_id = put_all_by_id more (put_by_id a by_id)

  unfoldable pub deduplicate_by_id : List A → List A
  deduplicate_by_id all = put_all_by_id all []

abbrev pub entry_id : ScopeEntry → Str
entry_id e = e.id

abbrev pub row_id : IncomingScopeRow → Str
row_id r = r.id

unfoldable pub has_id : Str → List ScopeEntry → Bool
has_id id es = any (λ e. str_eq e.id id) es

is_non_empty : Str → Bool
is_non_empty [] = false
is_non_empty (c ∷ s) = true

-- `isScopeEntry` on an entry of two strings.
unfoldable pub is_scope_entry : ScopeEntry → Bool
unfolding is_non_empty
is_scope_entry e = is_non_empty e.id && is_order_key e.order_key

are_unique : List ScopeEntry → StrSet → StrSet → Bool
are_unique [] ids order_keys = true
are_unique (e ∷ es) ids order_keys =
    let rest = are_unique es (StrSet.add e.id ids) (StrSet.add e.order_key order_keys) in
    if StrSet.has e.id ids || StrSet.has e.order_key order_keys then false else rest

-- `isScopeEntrySet`
unfoldable pub is_scope_entry_set : List ScopeEntry → Bool
unfolding are_unique
is_scope_entry_set es = every is_scope_entry es && are_unique es [] []

unfoldable pub is_ascending : List ScopeEntry → Bool
is_ascending [] = true
is_ascending (e ∷ []) = true
is_ascending (e ∷ f ∷ es) = entry_lt e f && is_ascending (f ∷ es)

is_empty : List ScopeEntry → Bool
is_empty [] = true
is_empty (e ∷ es) = false

-- `isScopeIndexValue` on a value of the declared fields.
unfoldable pub is_scope_index_value : ScopeIndexValue → Bool
unfolding is_empty
is_scope_index_value v =
    if not (leb v.generation max_safe_integer && is_scope_entry_set v.entries)
    then false
    else if v.generation == 0 && not (is_delta v.coverage && is_empty v.entries)
    then false
    else is_ascending v.entries
