-- ===== src/Ledger/Prune.antt =====
-- `prune` of the ledger: which records go, and what is left alone.
use react_native_dblayer.Base.{
  ℕ, ◌+◌, ◌≡◌, refl, sym, ap, Bool, true, false, not, List, [], ◌∷◌, arith, Bool-cases, inl, inr,
  keep, length, ltb,
}
use react_native_dblayer.Base.StrMap
use react_native_dblayer.Base.StrMap.{StrMap}
use react_native_dblayer.Ledger.Types.{OperationRecord, is_open}
use react_native_dblayer.Ledger.Transition.{Entry}
use react_native_dblayer.Ledger.State.{State, index_record, index_all, rebuild_indexes}
use react_native_dblayer.Ledger.Methods.{prune, prune_records, is_prunable}
use react_native_dblayer.Ledger.Queries.{open_operations}

index_all-operations : (es : List Entry) (s : State) → (index_all es s).operations ≡ s.operations
unfolding index_all index_record
index_all-operations [] s = refl
index_all-operations (e ∷ es) s = index_all-operations es (index_record e s)

is_prunable-closed : (now : ℕ) (r : OperationRecord) → is_prunable now r ≡ true → is_open r ≡ false
unfolding is_prunable
is_prunable-closed now r h = ground arith

prune_records-values :
    (now : ℕ) (m : StrMap Entry)
    → StrMap.values (prune_records now m).0
      ≡ keep (λ e. not (is_prunable now e.operation)) (StrMap.values m)
unfolding prune_records StrMap.values keep
prune_records-values now [] = refl
prune_records-values now ((id, e) ∷ m) =
    let rest = prune_records-values now m in
    elim (Bool-cases (is_prunable now e.operation)) [
      | inl goes ↦ rw goes rest
      | inr stays ↦ rw stays (ap (◌∷◌ e) rest)
    ]

prune_records-count :
    (now : ℕ) (m : StrMap Entry)
    → length (StrMap.values (prune_records now m).0) + (prune_records now m).1
      ≡ length (StrMap.values m)
unfolding prune_records StrMap.values
prune_records-count now [] = refl
prune_records-count now ((id, e) ∷ m) = ground (arith, prune_records-count now m)

prune_records-none :
    (now : ℕ) (m : StrMap Entry) → (prune_records now m).1 ≡ 0 → (prune_records now m).0 ≡ m
unfolding prune_records
prune_records-none now [] h = refl
prune_records-none now ((id, e) ∷ m) h = ground (arith, prune_records-none now m)

rebuild_indexes-operations : (s : State) → (rebuild_indexes s).operations ≡ s.operations
unfolding rebuild_indexes
rebuild_indexes-operations s =
    index_all-operations (StrMap.values s.operations)
      (record s { pending_keys = []; ops_by_row_key = []; pending_patch_count = 0 })

prune-operations :
    (now : ℕ) (s : State) → (prune now s).0.operations ≡ (prune_records now s.operations).0
unfolding prune
prune-operations now s = elim (Bool-cases (ltb 0 (prune_records now s.operations).1)) [
  | inl some_go ↦
      rw some_go
        (rebuild_indexes-operations (record s { operations = (prune_records now s.operations).0 }))
  | inr none_go ↦ rw none_go (sym (prune_records-none now s.operations (ground arith)))
]

prune-returned : (now : ℕ) (s : State) → (prune now s).1 ≡ (prune_records now s.operations).1
unfolding prune
prune-returned now s = ground arith

keep-keep :
    (p q : Entry → Bool) (es : List Entry)
    → ((e : Entry) → p e ≡ true → q e ≡ true)
    → keep p (keep q es) ≡ keep p es
unfolding keep
keep-keep p q [] h = refl
keep-keep p q (e ∷ es) h = ground (arith, keep-keep p q es h, h e)

-- `prune` at any time: the operations that stay are those that are not prunable, in their order;
-- the number returned and the number that stays add up to the number there was; the unresolved
-- operations (pending, failed, of unknown delivery) are all still there in their order.
pub prune-keeps_open :
    (now : ℕ) (s : State)
    → (StrMap.values (prune now s).0.operations
        ≡ keep (λ e. not (is_prunable now e.operation)) (StrMap.values s.operations))
      × (length (StrMap.values (prune now s).0.operations) + (prune now s).1
          ≡ length (StrMap.values s.operations))
      × (open_operations (prune now s).0 ≡ open_operations s)
unfolding open_operations
prune-keeps_open now s =
    let stay = prune_records-values now s.operations in
    (
      rw (prune-operations now s) stay,
      rw (prune-operations now s, prune-returned now s) (prune_records-count now s.operations),
      rw (prune-operations now s, stay)
          (keep-keep (λ e. is_open e.operation) (λ e. not (is_prunable now e.operation))
            (StrMap.values s.operations)
            (λ e h. ground (arith, is_prunable-closed now e.operation))),
    )
