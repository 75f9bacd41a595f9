-- ===== src/WritePolicies/Codecs.antt =====
-- What the write gate reads values by: src/schema/fieldCodec.ts, src/core/invariants.ts and
-- src/utils/normalizeHelpers.ts, over the JavaScript built-ins that they call.
use react_native_dblayer.Base.{
  ℕ, Bool, true, false, ◌&&◌, ◌||◌, leb, any, Option, none, some, [], ◌∷◌, ◌==◌, if◌then◌else◌,
  every, Ordering,
}
use react_native_dblayer.Base.Str.{Str}
use react_native_dblayer.Base.Value.{
  ℤ, Number, nan, int, Value, undefined, null, num, str, date, arr, obj, nil, Fields, done,
}
use react_native_dblayer.Where.Filter.{compare_int}

-- JavaScript built-ins: `Number(text)`, `Date.parse`, `toISOString` and `String`.
pub record Builtins : Type 0 where
  pub number_of : Str → Number
  pub parse_date : Str → Number
  pub iso_text : ℤ → Str
  pub text_of : Value → Str

-- The white space and line ends of JavaScript, which `trim` takes off.
abbrev is_space : ℕ → Bool
is_space c =
    (leb 9 c && leb c 13)
    || (leb 8192 c && leb c 8202)
    || any (λ d. c == d) (32 ∷ 160 ∷ 5760 ∷ 8232 ∷ 8233 ∷ 8239 ∷ 8287 ∷ 12288 ∷ 65279 ∷ [])

is_blank : Str → Bool
is_blank s = every is_space s

finite : Number → Option ℤ
finite (int n) = some n
finite _ = none

-- `readNumber`
unfoldable pub read_number : Builtins → Value → Option ℤ
unfolding is_blank finite
read_number js (num n) = finite n
read_number js (str s) = if is_blank s then none else finite (js.number_of s)
read_number js _ = none

parsed : Str → Number → Option Str
parsed s nan = none
parsed s _ = some s

iso : Builtins → Option ℤ → Option Str
iso js none = none
iso js (some n) = some (js.iso_text n)

-- `readDate`, on times in the range of dates.
unfoldable pub read_date : Builtins → Value → Option Str
unfolding parsed iso finite
read_date js (str s) = parsed s (js.parse_date s)
read_date js (date t) = iso js (finite t)
read_date js (num n) = iso js (finite n)
read_date js _ = none

-- A time, `none` for a missing or unreadable one.
time_of : Builtins → Option Str → Option ℤ
unfolding finite
time_of js none = none
time_of js (some []) = none
time_of js (some (c ∷ s)) = finite (js.parse_date (c ∷ s))

abbrev pub at_least : Ordering → Bool
at_least Ordering.lt = false
at_least _ = true

newer : Option ℤ → Option ℤ → Bool
newer existing none = elim existing [ none ↦ true | some e ↦ false ]
newer none (some i) = true
newer (some e) (some i) = at_least (compare_int i e)

-- `isIncomingNewer` of the existing and the incoming time.
unfoldable pub is_incoming_newer : Builtins → Option Str → Option Str → Bool
unfolding time_of newer
is_incoming_newer js existing incoming = newer (time_of js existing) (time_of js incoming)

-- `isNonArrayRecord`, with the fields.
abbrev pub record_of : Value → Option Fields
record_of (obj fields) = some fields
record_of _ = none

abbrev pub is_nullish : Value → Bool
is_nullish undefined = true
is_nullish null = true
is_nullish _ = false

-- `isPresent`
unfoldable pub is_present_value : Value → Bool
is_present_value undefined = false
is_present_value null = false
is_present_value (str []) = false
is_present_value (arr nil) = false
is_present_value (obj done) = false
is_present_value _ = true
