-- ===== src/WritePolicies/Types.antt =====
-- src/types/core.writePolicies.types.ts
use react_native_dblayer.Base.{List, Option}
use react_native_dblayer.Base.Str.{Str}
use react_native_dblayer.Base.StrMap.{StrMap}

pub data WriteOrigin : Type 0 where
  snapshot event replace patch : WriteOrigin

pub data NestedKeyPolicy : Type 0 where
  server_key continuity_key non_empty_key positive_key : NestedKeyPolicy

-- A path is its text, parts between dots.
mutual
  pub data MonotonicSpec : Type 0 where
    newer_by : Str → MonotonicSpec
    tuple : List Str → MonotonicSpec
    non_empty : MonotonicSpec
    ladder : Str → List (List Str) → MonotonicSpec
    present : Str → MonotonicSpec
    equal : Str → MonotonicSpec
    all_specs any_spec : Specs → MonotonicSpec

  pub data Specs : Type 0 where
    no_specs : Specs
    spec_then : MonotonicSpec → Specs → Specs

-- The origins of `on` are `none` where it is absent.
pub data WritePolicy : Type 0 where
  server local continuity snapshot_fold : WritePolicy
  monotonic : MonotonicSpec → Option (List WriteOrigin) → WritePolicy
  keys : StrMap NestedKeyPolicy → Option NestedKeyPolicy → WritePolicy

pub record WriteGroup : Type 0 where
  pub fields : List Str
  pub policies : List WritePolicy
