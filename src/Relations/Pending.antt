-- ===== src/Relations/Pending.antt =====
-- The membership that a plan accumulates: `accumulateMembership` and
-- `detachAccumulatedMembership` of `deriveEffects` in src/core/relations.ts.
use react_native_dblayer.Base.{◌&&◌, Option, none, some, List, [], ◌∷◌, if◌then◌else◌}
use react_native_dblayer.Base.Str.{Str, str_eq}
use react_native_dblayer.Base.StrMap
use react_native_dblayer.Base.StrMap.{StrMap}
use react_native_dblayer.Base.StrSet
use react_native_dblayer.Base.StrSet.{StrSet}
use react_native_dblayer.CompositeKey.{composite_key}
use react_native_dblayer.Relations.Types.{MembershipDelta}

pub record MembershipEntry : Type 0 where
  pub model : Str
  pub scope_key : Str
  pub append : StrSet
  pub detach : StrSet

abbrev pub Membership : Type 0
Membership = StrMap MembershipEntry

unfoldable pub append_ids : List Str → MembershipEntry → MembershipEntry
append_ids [] entry = entry
append_ids (id ∷ ids) entry =
    append_ids ids
      record entry { append = StrSet.add id entry.append; detach = StrSet.delete id entry.detach }

unfoldable pub detach_ids : List Str → MembershipEntry → MembershipEntry
detach_ids [] entry = entry
detach_ids (id ∷ ids) entry =
    detach_ids ids
      record entry { detach = StrSet.add id entry.detach; append = StrSet.delete id entry.append }

-- The entry of a scope, a new one where it has none.
unfoldable pub entry_for : Str → Str → Option MembershipEntry → MembershipEntry
entry_for model scope_key none = record {
  model = model;
  scope_key = scope_key;
  append = [];
  detach = [];
}
entry_for model scope_key (some entry) = entry

unfoldable pub accumulate_delta : Str → MembershipDelta → Membership → Membership
accumulate_delta model delta membership =
    let key = composite_key (model ∷ delta.scope_key ∷ []) in
    StrMap.set key
      (detach_ids delta.detach
        (append_ids delta.append (entry_for model delta.scope_key (StrMap.get key membership))))
      membership

-- `accumulateMembership`
unfoldable pub accumulate_membership : Str → List MembershipDelta → Membership → Membership
accumulate_membership model [] membership = membership
accumulate_membership model (delta ∷ deltas) membership =
    accumulate_membership model deltas (accumulate_delta model delta membership)

unfoldable pub detach_from : Str → Str → MembershipEntry → MembershipEntry
detach_from model id entry =
    if str_eq entry.model model && StrSet.has id entry.append
    then record entry {
      append = StrSet.delete id entry.append;
      detach = StrSet.add id entry.detach;
    }
    else entry

-- `detachAccumulatedMembership`
unfoldable pub detach_accumulated_membership : Str → Str → Membership → Membership
detach_accumulated_membership model id [] = []
detach_accumulated_membership model id ((key, entry) ∷ membership) =
    (key, detach_from model id entry) ∷ detach_accumulated_membership model id membership
