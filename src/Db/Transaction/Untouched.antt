-- ===== src/Db/Transaction/Untouched.antt =====
-- Runs of a transaction (db/transaction.go): its commit changes no model but those whose IDs it took.
use x_mesh.Prelude.{
  ℕ, ◌≡◌, refl, ap, sym, subst, ◌∙◌, inl, inr, false, Option, none, List, [], ◌∷◌, ◌++◌,
}
use x_mesh.Errors.{Error}
use x_mesh.Db.Escape.{Bytes}
use x_mesh.Db.Keys.{ColInfo, GoType, primary_key_for_id}
use x_mesh.Db.Keys.Laws.{primary_key≢count_key}
use x_mesh.Db.Ldb.{Op, Ldb, Codec, LdbLaws, after-append, after-others, answer}
use x_mesh.StringSet.{contains}
use x_mesh.Db.Operations.{add_int, count_op, find_by_id}
use x_mesh.Db.Transaction.{
  Call, returns, blocks, Db, Transaction, queue_insert, queue_update, queue_delete, commit,
  minus_one,
}
use x_mesh.Db.Transaction.Commit.{opened, commit-cases}
use x_mesh.Db.Transaction.Effects.{count_op-key}
use x_mesh.Db.Transaction.Single.{find_by_id-content}
use x_mesh.Db.Transaction.Appends.{
  insert_with_transaction-Appends, update_with_transaction-Appends, delete_with_transaction-Appends,
}
use x_mesh.Db.Transaction.Affected.{IsCovered, IsOpenCovered, queue-IsOpenCovered}

-- A call of a method of a transaction.
pub data Request (Model : Type 0) : Type 0 where
  insert_request update_request : Model → Request Model
  delete_request : Bytes → Request Model

module _ {Model Store : Type 0} (codec : Codec Model) (ldb : Ldb Store) (info : ColInfo Model) where
  unfoldable pub run_request :
      Db Store → Request Model → Transaction → Call (Option Error × Transaction)
  run_request db (insert_request model) = queue_insert codec ldb info db model
  run_request db (update_request model) = queue_update codec ldb info db model
  run_request db (delete_request id) = queue_delete codec ldb info db id

  abbrev pub transaction_of : Transaction → Call (Option Error × Transaction) → Transaction
  transaction_of txn (returns (e, txn')) = txn'
  transaction_of txn blocks = txn

  -- One call after the other, also after an error.
  unfoldable pub run_requests : Db Store → List (Request Model) → Transaction → Transaction
  unfolding run_request
  run_requests db [] txn = txn
  run_requests db (r ∷ rs) txn = run_requests db rs (transaction_of txn (run_request db r txn))

  taken :
      (txn : Transaction) (c : Call (Option Error × Transaction))
      → (r : Option Error) × (txn' : Transaction) × (c ≡ returns (r, txn'))
        × IsOpenCovered codec ldb info txn'
      → IsOpenCovered codec ldb info (transaction_of txn c)
  taken txn c (r, txn', e, h) =
      subst (λ c. IsOpenCovered codec ldb info (transaction_of txn c)) (sym e) h

  opened_request :
      (db : Db Store) (r : Request Model) (batch : List Op) (n : ℕ) (ids : List Bytes)
      → IsCovered codec ldb info batch ids
      → IsOpenCovered codec ldb info
          (transaction_of (opened batch n ids) (run_request db r (opened batch n ids)))
  unfolding run_request queue_insert queue_update queue_delete
  opened_request db (insert_request m) batch n ids covered = taken (opened batch n ids) _ (
      queue-IsOpenCovered codec ldb info "insert" (codec.id m) 1 _ batch n ids
        (insert_with_transaction-Appends codec ldb info db.store m) covered)
  opened_request db (update_request m) batch n ids covered = taken (opened batch n ids) _ (
      queue-IsOpenCovered codec ldb info "update" (codec.id m) 0 _ batch n ids
        (update_with_transaction-Appends codec ldb info db.store m) covered)
  opened_request db (delete_request id) batch n ids covered = taken (opened batch n ids) _ (
      queue-IsOpenCovered codec ldb info "delete" id minus_one _ batch n ids
        (delete_with_transaction-Appends codec ldb info db.store id) covered)

  run_request-IsOpenCovered :
      (db : Db Store) (r : Request Model) (txn : Transaction)
      → IsOpenCovered codec ldb info txn
      → IsOpenCovered codec ldb info (transaction_of txn (run_request db r txn))
  unfolding run_request queue_insert queue_update queue_delete
  run_request-IsOpenCovered db r txn (batch, n, ids, e, covered) =
      subst (λ t. IsOpenCovered codec ldb info (transaction_of t (run_request db r t))) (sym e)
        (opened_request db r batch n ids covered)

  run_requests-IsOpenCovered :
      (db : Db Store) (rs : List (Request Model)) (txn : Transaction)
      → IsOpenCovered codec ldb info txn
      → IsOpenCovered codec ldb info (run_requests db rs txn)
  unfolding run_requests
  run_requests-IsOpenCovered db [] txn h = h
  run_requests-IsOpenCovered db (r ∷ rs) txn h =
      run_requests-IsOpenCovered db rs (transaction_of txn (run_request db r txn))
        (run_request-IsOpenCovered db r txn h)

  store_of : Store → Call ((Option Error × Db Store) × Transaction) → Store
  store_of s (returns (r, txn)) = r.1.store
  store_of s blocks = s

  module _ (laws : LdbLaws ldb)
      (reads : (s : Store) (key : Bytes) → ldb.get s key ≡ answer (laws.content s key)) where
    commit-untouched :
        (db db' : Db Store) (txn txn' : Transaction) (id : Bytes) (type : GoType)
        → IsOpenCovered codec ldb info txn
        → commit codec ldb info db txn ≡ returns ((none, db'), txn')
        → contains txn.affected_ids id ≡ false
        → find_by_id codec ldb info db'.store id type ≡ find_by_id codec ldb info db.store id type
    unfolding store_of
    commit-untouched db db' txn txn' id type (batch, n, ids, e, covered) h untouched =
        let key = primary_key_for_id info id in
        elim (commit-cases codec ldb info db batch n ids) [
          | inl (_, _, b) ↦ let bad = sym b ∙ ap (commit codec ldb info db) (sym e) ∙ h in cc
          | inr (store, t, written, _, _, c) ↦
              let same = ap (store_of store) (sym c ∙ ap (commit codec ldb info db) (sym e) ∙ h) in
              let count = count_op codec ldb info (add_int written.existing n) in
              let there =
                laws.write-ok db.store store (batch ++ count ∷ []) written.wrote key
                ∙ after-append key batch (count ∷ []) (laws.content db.store key)
                ∙ after-others key (count ∷ []) _ (
                  (λ k.
                      primary_key≢count_key info info id
                        (sym k ∙ count_op-key codec ldb info (add_int written.existing n))),
                  tt,
                )
                ∙ after-others key batch (laws.content db.store key) (
                    covered id
                      (ap (λ (t : Transaction). contains t.affected_ids id) (sym e) ∙ untouched)) in
              find_by_id-content codec ldb info laws reads db'.store db.store id type
                (ap (λ s. laws.content s key) (sym same) ∙ there)
        ]

    -- If every read of the store succeeds, writes keep what they are documented to keep, and
    -- after any calls of Insert, Update and Delete on a new transaction, with errors or without,
    -- its commit returns no error, then FindByID finds every ID that is not among the affected
    -- IDs of the transaction as it did before the commit.
    pub run_requests-find_by_id :
        (db db' : Db Store) (rs : List (Request Model)) (txn' : Transaction) (id : Bytes)
        (type : GoType)
        → commit codec ldb info db (run_requests db rs (opened [] 0 []))
          ≡ returns ((none, db'), txn')
        → contains (run_requests db rs (opened [] 0 [])).affected_ids id ≡ false
        → find_by_id codec ldb info db'.store id type ≡ find_by_id codec ldb info db.store id type
    run_requests-find_by_id db db' rs txn' id type h untouched =
        commit-untouched db db' (run_requests db rs (opened [] 0 [])) txn' id type
          (run_requests-IsOpenCovered db rs (opened [] 0 []) ([], 0, [], refl, λ id new_id. tt)) h
          untouched
