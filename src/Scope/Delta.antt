-- ===== src/Scope/Delta.antt =====
-- `applyDelta` of src/core/planes/scopeIndex.ts: the members that it leaves, by its fast path and by
-- its merge.
use react_native_dblayer.Base.{◌≡◌, ◌&&◌, ◌||◌, not, Option, some, List, if◌then◌else◌}
use react_native_dblayer.Base.Str.{Str, str_eq}
use react_native_dblayer.Base.StrSet
use react_native_dblayer.Base.StrSet.{StrSet}
use react_native_dblayer.Base.StrMap
use react_native_dblayer.Scope.Entry.{ScopeEntry, has_id}
use react_native_dblayer.Scope.State.{State}
use react_native_dblayer.Scope.Methods.{has_member}
use react_native_dblayer.Scope.Indexed.{IsCoherent}

-- What a delta under a key leaves: the maps in step, the appended ids and the ids there were
-- without the detached ones as members of its scope, and every other scope as it was.
abbrev pub Applies : Str → List ScopeEntry → List Str → State → Option State → Type 0
Applies key append removal s result =
    (s' : State) × (result ≡ some s')
    × IsCoherent s'
    × ((k id : Str)
        → has_member k id s' ≡ (
            if str_eq key k
            then has_id id append || (has_member key id s && not (StrSet.has id removal))
            else has_member k id s))
