-- ===== src/Transaction/Commit.antt =====
-- What `persistCommit` of src/core/apply/transaction.ts leaves, refused writes included.
use react_native_dblayer.Base.{
  suc, Bool, true, false, not, Option, some, List, [], ◌∷◌, ◌≡◌, refl, sym, ◌∙◌, subst, arith,
  if◌then◌else◌, every, ◌⊎◌, inl, inr, Bool-cases,
}
use react_native_dblayer.Base.Str.{Str, str_eq_refl}
use react_native_dblayer.Base.StrMap
use react_native_dblayer.Base.StrSet
use react_native_dblayer.Base.StrSet.{StrSet}
use react_native_dblayer.Base.Value.{Number, Value}
use react_native_dblayer.Transaction.DeltaLog.{delta_key, encode_delta}
use react_native_dblayer.Transaction.Flush.{
  Runtime, Outcome, op_model, touched_models, write, and_then, write_all, persist_delta,
  persist_commit,
}

touched_models-keep :
    (ops : List Value) (models : StrSet) (model : Str)
    → StrSet.has model models ≡ true
    → StrSet.has model (touched_models ops models) ≡ true
unfolding touched_models
touched_models-keep [] models model h = h
touched_models-keep (op ∷ ops) models model h =
    touched_models-keep ops _ model (ground (arith, StrSet.has-add (op_model op) model models))

touched_models-all :
    (ops : List Value) (models : StrSet)
    → every (λ op. StrSet.has (op_model op) (touched_models ops models)) ops ≡ true
unfolding touched_models every
touched_models-all [] models = refl
touched_models-all (op ∷ ops) models = ground (
  arith,
  touched_models-all ops (StrSet.add (op_model op) models),
  touched_models-keep ops (StrSet.add (op_model op) models) (op_model op),
  StrSet.has-add (op_model op) (op_model op) models,
  str_eq_refl (op_model op),
)

module _ (number_of : Str → Number) (stringify : Value → Str) (accepts : Str → Bool)
    (prefix : Str) where
  write_all-threw :
      (entries : List (Str × Option Str)) (runtime : Runtime)
      → (write_all number_of stringify accepts prefix entries runtime).threw
        ≡ not (every (λ entry. accepts entry.0) entries)
  unfolding write_all and_then write every
  write_all-threw [] runtime = refl
  write_all-threw ((key, value) ∷ entries) runtime = elim (Bool-cases (accepts key)) [
    | inl t ↦ rw t (write_all-threw entries _)
    | inr f ↦ rw f refl
  ]

  write_all-delta_seq :
      (entries : List (Str × Option Str)) (runtime : Runtime)
      → (write_all number_of stringify accepts prefix entries runtime).runtime.delta_seq
        ≡ runtime.delta_seq
  unfolding write_all and_then write
  write_all-delta_seq [] runtime = refl
  write_all-delta_seq ((key, value) ∷ entries) runtime = elim (Bool-cases (accepts key)) [
    | inl t ↦ rw t (write_all-delta_seq entries _)
    | inr f ↦ rw f refl
  ]

  -- The delta of a commit from its number: on disk with the next number taken, or not there with
  -- the number left free, as storage accepts its key.
  abbrev pub IsLogged : Runtime → Runtime → List Value → Type 0
  IsLogged before after ops =
      ((accepts (delta_key prefix before.delta_seq) ≡ true)
        × (StrMap.get (delta_key prefix before.delta_seq) after.storage
            ≡ some (encode_delta stringify before.delta_seq ops))
        × (after.delta_seq ≡ suc before.delta_seq))
      ⊎ ((accepts (delta_key prefix before.delta_seq) ≡ false)
          × (after.delta_seq ≡ before.delta_seq))

  persist_delta-IsLogged :
      (op : Value) (ops : List Value) (runtime : Runtime)
      → IsLogged runtime
          (persist_delta number_of stringify accepts prefix (op ∷ ops) runtime)
          (op ∷ ops)
  unfolding persist_delta
  persist_delta-IsLogged op ops runtime =
      elim (Bool-cases (accepts (delta_key prefix runtime.delta_seq))) [
        | inl t ↦ inl (
          t,
          rw t (
              StrMap.get-set (delta_key prefix runtime.delta_seq)
                (delta_key prefix runtime.delta_seq)
                (encode_delta stringify runtime.delta_seq (op ∷ ops)) runtime.storage
              ∙ rw (str_eq_refl (delta_key prefix runtime.delta_seq)) refl),
          rw t refl,
        )
        | inr f ↦ inr (f, rw f refl)
      ]

  IsLogged-later :
      (before written after : Runtime) (ops : List Value)
      → written.delta_seq ≡ before.delta_seq
      → IsLogged written after ops
      → IsLogged before after ops
  IsLogged-later before written after ops same h =
      subst
        (λ seq.
          ((accepts (delta_key prefix seq) ≡ true)
            × (StrMap.get (delta_key prefix seq) after.storage
                ≡ some (encode_delta stringify seq ops))
            × (after.delta_seq ≡ suc seq))
          ⊎ ((accepts (delta_key prefix seq) ≡ false) × (after.delta_seq ≡ seq)))
        same h

  by_case :
      (P : Outcome → Type 0) (b : Bool) (x y : Outcome)
      → (b ≡ true → P x)
      → (b ≡ false → P y)
      → P (if b then x else y)
  by_case P true x y p q = p refl
  by_case P false x y p q = q refl

  -- What a commit with operations leaves.
  abbrev pub IsDurable : List (Str × Option Str) → Value → List Value → Runtime → Outcome → Type 0
  IsDurable ledger_entries op ops before outcome =
      (outcome.threw ≡ not (every (λ entry. accepts entry.0) ledger_entries))
      × ((outcome.threw ≡ true)
          ⊎ ((every (λ o. StrSet.has (op_model o) outcome.runtime.dirty_models) (op ∷ ops) ≡ true)
              × IsLogged before outcome.runtime (op ∷ ops)))

  -- A commit with operations throws exactly when storage refuses an entry of the ledger. When it
  -- does not, every model of its operations is dirty, and its delta is on disk, as `encodeDelta`
  -- writes it and with its number taken, or storage refused the delta and the number stays free.
  pub persist_commit-IsDurable :
      (ledger_entries : List (Str × Option Str)) (op : Value) (ops : List Value) (runtime : Runtime)
      → IsDurable ledger_entries op ops runtime
          (persist_commit number_of stringify accepts prefix ledger_entries (op ∷ ops) runtime)
  unfolding persist_commit and_then persist_delta
  persist_commit-IsDurable ledger_entries op ops runtime =
      let written = write_all number_of stringify accepts prefix ledger_entries runtime in
      let threw = write_all-threw ledger_entries runtime in
      let same = write_all-delta_seq ledger_entries runtime in
      by_case (λ outcome. IsDurable ledger_entries op ops runtime outcome) written.threw written _
        (λ t. (threw, inl t))
        (λ f. (
          sym f ∙ threw,
          inr (
            touched_models-all (op ∷ ops) _,
            IsLogged-later runtime written.runtime
                (persist_delta number_of stringify accepts prefix (op ∷ ops) written.runtime)
                (op ∷ ops) same (persist_delta-IsLogged op ops written.runtime),
          ),
        ))
