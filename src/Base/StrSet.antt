-- ===== src/Base/StrSet.antt =====
-- `Set<string>`: the members in insertion order, each once.
use mathlib.Core.Path.{◌≡◌, refl}
use mathlib.Core.Bool.{Bool, true, false, ◌&&◌, ◌||◌, not}
use mathlib.Core.List.{List, [], ◌∷◌, ◌++◌}
use native.Mathlib.Omega.{arith}
use react_native_dblayer.Base.Tests.{if◌then◌else◌}
use react_native_dblayer.Base.Str.{Str, str_eq, str_eq_iff}

abbrev pub StrSet : Type 0
StrSet = List Str

unfoldable pub has : Str → StrSet → Bool
has k [] = false
has k (j ∷ l) = str_eq j k || has k l

unfoldable pub add : Str → StrSet → StrSet
add k s = if has k s then s else s ++ k ∷ []

unfoldable pub delete : Str → StrSet → StrSet
delete k [] = []
delete k (j ∷ l) = let rest = delete k l in if str_eq j k then rest else j ∷ rest

has-append : (k : Str) (s t : StrSet) → has k (s ++ t) ≡ (has k s || has k t)
unfolding has
has-append k [] t = refl
has-append k (j ∷ s) t = ground (arith, has-append k s t)

pub has-add : (k j : Str) (s : StrSet) → has j (add k s) ≡ (str_eq k j || has j s)
unfolding add has
has-add k j s = ground (arith, has-append j s (k ∷ []), str_eq_iff k j)

pub has-delete : (k j : Str) (s : StrSet) → has j (delete k s) ≡ (not (str_eq k j) && has j s)
unfolding delete has
has-delete k j [] = ground arith
has-delete k j (i ∷ s) =
    ground (arith, has-delete k j s, str_eq_iff i k, str_eq_iff i j, str_eq_iff k j)

pub add-present : (k : Str) (s : StrSet) → has k s ≡ true → add k s ≡ s
unfolding add
add-present k s h = rw h
