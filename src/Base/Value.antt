-- ===== src/Base/Value.antt =====
-- JavaScript values that rows, inputs and filters hold. Numbers are integers, the two infinities
-- and NaN; fractions and -0 are left out.
use react_native_dblayer.Base.Str.{Str}
use react_native_dblayer.Base.StrMap.{StrMap}
use mathlib.Core.Bool.{Bool}
use mathlib.Core.List.{[], ◌∷◌}
use Prim.Native.Nat.{ℕ}

-- `negsuc n` is -(n + 1).
pub data ℤ : Type 0 where
  pos : ℕ → ℤ
  negsuc : ℕ → ℤ

pub data Number : Type 0 where
  nan neg_infinity pos_infinity : Number
  int : ℤ → Number

mutual
  pub data Value : Type 0 where
    undefined null : Value
    bool : Bool → Value
    num : Number → Value
    str : Str → Value
    date : Number → Value
    arr : Items → Value
    obj : Fields → Value

  pub data Items : Type 0 where
    nil : Items
    cons : Value → Items → Items

  pub data Fields : Type 0 where
    done : Fields
    field : Str → Value → Fields → Fields

-- `Object.entries`
unfoldable pub entries : Fields → StrMap Value
entries done = []
entries (field k v fs) = (k, v) ∷ entries fs
