-- ===== src/Ledger/OnceKeys.antt =====
-- The keys of committed `once` operations under the changes of `applyTransition`.
use react_native_dblayer.Base.{
  ℕ, ◌≡◌, sym, ◌∙◌, Bool, true, false, ◌&&◌, Option, none, some, arith, Bool-cases, Option-cases,
  inl, inr,
}
use react_native_dblayer.Base.Str.{Str, str_eq, str_eq_iff}
use react_native_dblayer.Base.StrSet
use react_native_dblayer.Base.StrSet.{StrSet}
use react_native_dblayer.Base.StrMap
use react_native_dblayer.Base.StrMap.{StrMap}
use react_native_dblayer.Ledger.Types.{
  OperationStatus, OperationRecord, OperationTransition, begin, close, remove, truthy,
  is_retained_once, status_eq, is_true, committed, pending,
}
use react_native_dblayer.Ledger.Transition.{
  add_once_key, close_found, remove_found, mismatches, Entry, apply_transition,
}
use react_native_dblayer.Ledger.State.{index_committed_key}

-- The retained key of a record is among the keys.
abbrev pub KeyIsKept : OperationRecord → StrSet → Type 0
KeyIsKept r keys =
    (key : Str)
    → is_retained_once r ≡ true
    → truthy r.idempotency_key ≡ some key
    → StrSet.has key keys ≡ true

-- Every committed `once` record has its key among the keys.
pub record KeepsOnceKeys (records : StrMap Entry) (keys : StrSet) : Type 0 where
  pub at : (id : Str) (e : Entry) → StrMap.get id records ≡ some e → KeyIsKept e.operation keys

set-KeepsOnceKeys :
    (id : Str) (e : Entry) (records : StrMap Entry) (keys : StrSet)
    → KeepsOnceKeys records keys
    → KeyIsKept e.operation keys
    → KeepsOnceKeys (StrMap.set id e records) keys
set-KeepsOnceKeys id e records keys h k = record {
  at = λ j x found key r t. elim (Bool-cases (str_eq id j)) [
    | inl same ↦
        let x_is : some e ≡ some x = sym (StrMap.get-set id j e records ∙ rw same) ∙ found in
        ground (arith, x_is, k key)
    | inr other ↦ h.at j x (sym (StrMap.get-set id j e records ∙ rw other) ∙ found) key r t
  ];
}

delete-KeepsOnceKeys :
    (id : Str) (records : StrMap Entry) (keys : StrSet)
    → KeepsOnceKeys records keys
    → KeepsOnceKeys (StrMap.delete id records) keys
delete-KeepsOnceKeys id records keys h = record {
  at = λ j x found key r t. elim (Bool-cases (str_eq id j)) [
    | inl same ↦
        let gone : none ≡ some x = sym (StrMap.get-delete id j records ∙ rw same) ∙ found in cc
    | inr other ↦ h.at j x (sym (StrMap.get-delete id j records ∙ rw other) ∙ found) key r t
  ];
}

add-KeepsOnceKeys :
    (new : Str) (records : StrMap Entry) (keys : StrSet)
    → KeepsOnceKeys records keys
    → KeepsOnceKeys records (StrSet.add new keys)
add-KeepsOnceKeys new records keys h = record {
  at = λ j x found key r t. ground (arith, StrSet.has-add new key keys, h.at j x found key r t);
}

begin-KeepsOnceKeys :
    (ref : ℕ) (records : StrMap Entry) (keys : StrSet) (r : OperationRecord)
    → KeepsOnceKeys records keys
    → let result = apply_transition ref records keys (begin r) in
      KeepsOnceKeys result.records result.once_keys
unfolding apply_transition
begin-KeepsOnceKeys ref records keys r h =
    set-KeepsOnceKeys r.operation_id _ records keys h (λ key kept t. cc (unretained kept))
  where
    unretained : is_retained_once (record r { status = pending }) ≡ true → false ≡ true
    unretained kept = unfold is_retained_once in kept

add_once_key-KeepsOnceKeys :
    (b : Bool) (o : Option Str) (records : StrMap Entry) (keys : StrSet)
    → KeepsOnceKeys records keys
    → KeepsOnceKeys records (add_once_key b o keys)
unfolding add_once_key
add_once_key-KeepsOnceKeys true none records keys h = h
add_once_key-KeepsOnceKeys true (some k) records keys h = add-KeepsOnceKeys k records keys h
add_once_key-KeepsOnceKeys false o records keys h = h

has-add_once_key :
    (b : Bool) (o : Option Str) (keys : StrSet) (key : Str)
    → b ≡ true
    → o ≡ some key
    → StrSet.has key (add_once_key b o keys) ≡ true
unfolding add_once_key
has-add_once_key false o keys key b e = cc
has-add_once_key true none keys key b e = cc
has-add_once_key true (some k) keys key b e =
    ground (arith, StrSet.has-add k key keys, str_eq_iff k key)

close_found-KeepsOnceKeys :
    (ref : ℕ) (status : OperationStatus) (id : Str) (records : StrMap Entry) (keys : StrSet)
    (p : Entry)
    → KeepsOnceKeys records keys
    → let result = close_found ref status id records keys p in
      KeepsOnceKeys result.records result.once_keys
unfolding close_found is_retained_once
close_found-KeepsOnceKeys ref status id records keys p h =
    elim (Bool-cases (status_eq p.operation.status pending)) [
      | inr other ↦ rw (other, close_found) h
      | inl unresolved ↦
          rw (unresolved, close_found)
            (set-KeepsOnceKeys id _ records _ (add_once_key-KeepsOnceKeys _ _ records keys h)
              (λ key kept t.
                has-add_once_key (status_eq status committed && is_true p.operation.once) _ keys key
                  kept t))
    ]

close-KeepsOnceKeys :
    (ref : ℕ) (records : StrMap Entry) (keys : StrSet) (id : Str) (status : OperationStatus)
    → KeepsOnceKeys records keys
    → let result = apply_transition ref records keys (close id status) in
      KeepsOnceKeys result.records result.once_keys
unfolding apply_transition
close-KeepsOnceKeys ref records keys id status h = elim (Option-cases (StrMap.get id records)) [
  | inl e ↦ rw (e, apply_transition) h
  | inr (p, e) ↦ rw (e, apply_transition) (close_found-KeepsOnceKeys ref status id records keys p h)
]

remove-KeepsOnceKeys :
    (ref : ℕ) (records : StrMap Entry) (keys : StrSet) (id : Str)
    (expected : Option OperationStatus)
    → KeepsOnceKeys records keys
    → let result = apply_transition ref records keys (remove id expected) in
      KeepsOnceKeys result.records result.once_keys
unfolding apply_transition remove_found
remove-KeepsOnceKeys ref records keys id expected h =
    let gone = delete-KeepsOnceKeys id records keys h in
    elim (Option-cases (StrMap.get id records)) [
      | inl e ↦ rw (e, apply_transition) h
      | inr (p, e) ↦
          rw (e, apply_transition)
            (elim (Bool-cases (mismatches expected p.operation.status)) [
              | inl other ↦ rw other h
              | inr same ↦ rw same gone
            ])
    ]

pub apply_transition-KeepsOnceKeys :
    (ref : ℕ) (records : StrMap Entry) (keys : StrSet) (t : OperationTransition)
    → KeepsOnceKeys records keys
    → let result = apply_transition ref records keys t in
      KeepsOnceKeys result.records result.once_keys
apply_transition-KeepsOnceKeys ref records keys (begin r) h =
    begin-KeepsOnceKeys ref records keys r h
apply_transition-KeepsOnceKeys ref records keys (close id status) h =
    close-KeepsOnceKeys ref records keys id status h
apply_transition-KeepsOnceKeys ref records keys (remove id expected) h =
    remove-KeepsOnceKeys ref records keys id expected h

-- Indexing a record whose retained key is kept leaves the committed keys as they are.
pub index_committed_key-kept :
    (r : OperationRecord) (keys : StrSet)
    → KeyIsKept r keys
    → index_committed_key r (truthy r.idempotency_key) keys ≡ keys
unfolding index_committed_key
index_committed_key-kept r keys h = elim (Option-cases (truthy r.idempotency_key)) [
  | inl e ↦ rw (e, index_committed_key)
  | inr (key, e) ↦ elim (Bool-cases (is_retained_once r)) [
    | inl kept ↦ rw (e, index_committed_key) (rw kept (StrSet.add-present key keys (h key kept e)))
    | inr other ↦ rw (e, index_committed_key) (rw other)
  ]
]
