-- ===== src/Transaction/Cut.antt =====
-- What reading the delta log of src/core/apply/deltaLog.ts leaves on disk.
use react_native_dblayer.Base.{
  Bool, true, false, ◌||◌, Option, none, some, List, [], ◌∷◌, ◌++◌, ◌≡◌, refl, sym, ◌∙◌, arith,
  if◌then◌else◌, ◌⊎◌, inl, inr, keep, subst, Bool-cases, Option-cases,
}
use react_native_dblayer.Base.Str.{Str, str_eq, str_eq_iff, text}
use react_native_dblayer.Base.StrMap
use react_native_dblayer.Base.StrSet
use react_native_dblayer.Base.Value.{Value}
use react_native_dblayer.Transaction.DeltaLog.{
  Storage, Decoded, decoded, stale, corrupt, DecodedDelta, decode_delta, delete_keys, keys_with,
  DeltaLog, decode_at, cut_at, read_deltas, starts_with, insert_key, sort_keys, read_delta_log,
}

-- Deleting keys takes off those keys alone.
get-delete_keys :
    (keys : List Str) (storage : Storage) (key : Str)
    → StrMap.get key (delete_keys keys storage)
      ≡ (if StrSet.has key keys then none else StrMap.get key storage)
unfolding delete_keys StrSet.has
get-delete_keys [] storage key = refl
get-delete_keys (k ∷ keys) storage key =
    ground
      (arith, get-delete_keys keys (StrMap.delete k storage) key, StrMap.get-delete k key storage)

module _ (parse : Str → Option Value) where
  -- The key is gone, or its text is one that decodes and is as it was.
  abbrev pub IsReadOrGone : Storage → DeltaLog → Str → Type 0
  IsReadOrGone before log key =
      (StrMap.get key log.storage ≡ none)
      ⊎ ((raw : Str) × (delta : DecodedDelta) × (StrMap.get key before ≡ some raw)
          × (decode_delta parse raw ≡ decoded delta))

  gone-cut :
      (prefix : Str) (cut : List Str) (deltas : List DecodedDelta) (storage : Storage)
      (counts : Bool) (key : Str)
      → StrSet.has key cut ≡ true
      → StrMap.get key (cut_at parse prefix cut deltas storage counts).storage ≡ none
  unfolding cut_at
  gone-cut prefix cut deltas storage counts key h =
      let kept = delete_keys cut storage in
      ground (
        arith,
        get-delete_keys cut storage key,
        get-delete_keys (keys_with (prefix ++ text "query") kept) kept key,
      )

  decoded-text :
      (storage : Storage) (key : Str) (delta : DecodedDelta)
      → decode_at parse storage key ≡ decoded delta
      → (raw : Str) × (StrMap.get key storage ≡ some raw) × (decode_delta parse raw ≡ decoded delta)
  unfolding decode_at
  decoded-text storage key delta e = elim (Option-cases (StrMap.get key storage)) [
    | inl n ↦ absurd (ground (arith, n, e))
    | inr (raw, there) ↦
        let is : decode_at parse storage key ≡ decode_delta parse raw =
          rw (there, decode_at) refl in
        (raw, there, sym is ∙ e)
  ]

  read_at :
      (prefix k : Str) (keys : List Str) (deltas : List DecodedDelta) (storage : Storage)
      (key : Str)
      → StrSet.has key (k ∷ keys) ≡ true
      → ((more : List DecodedDelta)
          → StrSet.has key keys ≡ true
          → IsReadOrGone storage (read_deltas parse prefix keys more storage) key)
      → (found : Decoded) → decode_at parse storage k ≡ found
      → IsReadOrGone storage (read_deltas parse prefix (k ∷ keys) deltas storage) key
  unfolding StrSet.has read_deltas
  read_at prefix k keys deltas storage key h later (decoded delta) e =
      elim (Bool-cases (str_eq k key)) [
        | inl t ↦
            let (raw, there, reads) = decoded-text storage k delta e in
            let same : k ≡ key = ground (arith, str_eq_iff k key, t) in
            inr (raw, delta, subst (λ x. StrMap.get x storage ≡ some raw) same there, reads)
        | inr f ↦ rw (e, read_deltas) (later (deltas ++ delta ∷ []) (ground (arith, h, f)))
      ]
  read_at prefix k keys deltas storage key h later stale e =
      inl (rw (e, read_deltas) (gone-cut prefix (k ∷ keys) deltas storage false key h))
  read_at prefix k keys deltas storage key h later corrupt e =
      inl (rw (e, read_deltas) (gone-cut prefix (k ∷ keys) deltas storage true key h))

  read_deltas-IsReadOrGone :
      (prefix : Str) (keys : List Str) (deltas : List DecodedDelta) (storage : Storage) (key : Str)
      → StrSet.has key keys ≡ true
      → IsReadOrGone storage (read_deltas parse prefix keys deltas storage) key
  unfolding StrSet.has
  read_deltas-IsReadOrGone prefix [] deltas storage key h = absurd (ground arith)
  read_deltas-IsReadOrGone prefix (k ∷ keys) deltas storage key h =
      read_at prefix k keys deltas storage key h
        (λ more. read_deltas-IsReadOrGone prefix keys more storage key) (decode_at parse storage k)
        refl

  has-insert_key :
      (k key : Str) (keys : List Str)
      → StrSet.has key (insert_key k keys) ≡ (str_eq k key || StrSet.has key keys)
  unfolding StrSet.has insert_key
  has-insert_key k key [] = ground arith
  has-insert_key k key (x ∷ keys) = ground (arith, has-insert_key k key keys)

  has-sort_keys :
      (key : Str) (keys : List Str) → StrSet.has key (sort_keys keys) ≡ StrSet.has key keys
  unfolding StrSet.has sort_keys
  has-sort_keys key [] = refl
  has-sort_keys key (k ∷ keys) =
      ground (arith, has-insert_key k key (sort_keys keys), has-sort_keys key keys)

  has-keep_keys :
      (p : Str → Bool) (key : Str) (keys : List Str)
      → p key ≡ true
      → StrSet.has key (keep p keys) ≡ StrSet.has key keys
  unfolding StrSet.has keep
  has-keep_keys p key [] h = refl
  has-keep_keys p key (k ∷ keys) h = ground (arith, has-keep_keys p key keys, str_eq_iff k key)

  has-keys :
      (key raw : Str) (storage : Storage)
      → StrMap.get key storage ≡ some raw
      → StrSet.has key (StrMap.keys storage) ≡ true
  unfolding StrSet.has StrMap.get StrMap.keys
  has-keys key raw [] h = absurd (ground arith)
  has-keys key raw ((k, v) ∷ storage) h = ground (arith, has-keys key raw storage)

  -- After the delta log is read, every delta key that was on disk is gone, or held a text that
  -- decodes: none that the current version cannot read is left behind.
  pub read_delta_log-IsReadOrGone :
      (prefix : Str) (storage : Storage) (key raw : Str)
      → StrMap.get key storage ≡ some raw
      → starts_with (prefix ++ text "delta:") key ≡ true
      → IsReadOrGone storage (read_delta_log parse prefix storage) key
  unfolding read_delta_log keys_with
  read_delta_log-IsReadOrGone prefix storage key raw there starts =
      read_deltas-IsReadOrGone prefix _ [] storage key (
        has-sort_keys key _
        ∙ has-keep_keys (starts_with (prefix ++ text "delta:")) key (StrMap.keys storage) starts
        ∙ has-keys key raw storage there)
