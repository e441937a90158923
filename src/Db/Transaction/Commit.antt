-- ===== src/Db/Transaction/Commit.antt =====
-- `Commit` (db/transaction.go) and the single operations (db/collection.go): all or nothing.
use x_mesh.Prelude.{
  ℕ, ◌≡◌, refl, ap, sym, subst, ◌∙◌, ◌⊎◌, inl, inr, Bool, true, false, Option, none, some, List, [],
  ◌∷◌, ◌++◌, Bool-cases, Option-cases,
}
use x_mesh.Errors.{Error, Result, ok, err, Result-cases, committed}
use x_mesh.Db.Escape.{Bytes}
use x_mesh.Db.Keys.{ColInfo}
use x_mesh.Db.Ldb.{Op, Ldb, Codec}
use x_mesh.Db.Operations.{add_int, count, count_op, update_count_with_transaction}
use x_mesh.Db.Transaction.{
  Call, returns, blocks, Db, Transaction, check_state, with_lock, open_transaction, discard,
  discard_with, commit, commit_or_discard, in_transaction, commit_body, discard_body, after_count,
  after_write, unlock, update_internal_count,
}

-- A transaction that takes operations: no method is running, and it is not closed.
abbrev pub opened : List Op → ℕ → List Bytes → Transaction
opened batch n ids = record {
  batch = batch;
  is_held = false;
  is_committed = false;
  is_discarded = false;
  internal_count = n;
  affected_ids = ids;
}

module _ {Model Store : Type 0} (codec : Codec Model) (ldb : Ldb Store) (info : ColInfo Model) where
  -- What a commit does: the batch, with the new count behind it, reaches the store as one write.
  pub record Written (db : Db Store) (diff : ℕ) (batch : List Op) (store : Store) : Type 0 where
    pub existing : ℕ
    pub counted : count codec ldb info db.store ≡ ok existing
    pub wrote :
        ldb.write db.store (batch ++ count_op codec ldb info (add_int existing diff) ∷ [])
        ≡ ok store

  -- The read of the count fails, or the write does.
  abbrev pub CannotCommit : Db Store → ℕ → List Op → Error → Type 0
  CannotCommit db n batch e =
      (count codec ldb info db.store ≡ err e)
      ⊎ ((existing : ℕ) × (count codec ldb info db.store ≡ ok existing)
          × (ldb.write db.store (batch ++ count_op codec ldb info (add_int existing n) ∷ [])
              ≡ err e))

  update_count-err :
      (db : Db Store) (batch : List Op) (n : ℕ) (e : Error)
      → count codec ldb info db.store ≡ err e
      → update_count_with_transaction codec ldb info db.store n batch ≡ (some e, batch)
  unfolding update_count_with_transaction
  update_count-err db batch n e h = rw (h, update_count_with_transaction) refl

  update_count-ok :
      (db : Db Store) (batch : List Op) (n k : ℕ)
      → count codec ldb info db.store ≡ ok k
      → update_count_with_transaction codec ldb info db.store n batch
        ≡ (none, batch ++ count_op codec ldb info (add_int k n) ∷ [])
  unfolding update_count_with_transaction
  update_count-ok db batch n k h = rw (h, update_count_with_transaction) refl

  -- The commit of an open transaction writes the batch with the new count behind it as one,
  -- closes the transaction, gives the write lock back and returns no error; or the read of the
  -- count or the write fails, and the commit never returns.
  pub commit-cases :
      (db : Db Store) (batch : List Op) (n : ℕ) (ids : List Bytes)
      → ((e : Error) × CannotCommit db n batch e
          × (commit codec ldb info db (opened batch n ids) ≡ blocks))
        ⊎ ((store : Store) × (txn' : Transaction) × Written db n batch store
            × (check_state txn' ≡ some committed)
            × (txn'.is_held ≡ false)
            × (commit codec ldb info db (opened batch n ids)
                ≡ returns ((none, record { store = store; locked = false }), txn')))
  unfolding commit commit_body with_lock check_state discard_with discard discard_body after_count
      after_write
  commit-cases db batch n ids =
      let held = record (opened batch n ids) { is_held = true } in
      elim (Result-cases (count codec ldb info db.store)) [
        | inr (e, h) ↦ inl (
          e,
          inl h,
          ap (λ c. unlock (after_count codec ldb info c db held)) (update_count-err db batch n e h),
        )
        | inl (k, h) ↦
            let batch' = batch ++ count_op codec ldb info (add_int k n) ∷ [] in
            let counted =
              ap (λ c. unlock (after_count codec ldb info c db held))
                (update_count-ok db batch n k h) in
            let step = λ (r : Result Store).
              unlock (after_write codec ldb info r db (record held { batch = batch' })) in
            elim (Result-cases (ldb.write db.store batch')) [
              | inr (e, w) ↦ inl (e, inr (k, h, w), counted ∙ ap step w)
              | inl (store, w) ↦ inr (
                store,
                record (opened batch n ids) { batch = batch'; is_committed = true },
                record { existing = k; counted = h; wrote = w },
                refl,
                refl,
                counted ∙ ap step w,
              )
            ]
      ]

  store_of : Store → Call (Option Error × Db Store) → Store
  store_of s (returns (e, db)) = db.store
  store_of s blocks = s

  lock_of : Call (Option Error × Db Store) → Bool
  lock_of (returns (e, db)) = db.locked
  lock_of blocks = true

  commit_or_discard-returns :
      (db db' : Db Store) (batch : List Op) (n : ℕ) (ids : List Bytes)
      → commit_or_discard codec ldb info db (opened batch n ids) ≡ returns (none, db')
      → Written db n batch db'.store × (db'.locked ≡ false)
  unfolding commit_or_discard store_of lock_of
  commit_or_discard-returns db db' batch n ids h = elim (commit-cases db batch n ids) [
    | inl (e, _, c) ↦ let bad = rw (c, commit_or_discard) at h in cc
    | inr (store, txn', written, _, _, c) ↦
        let same = rw (c, commit_or_discard) at h in
        (subst (Written db n batch) (ap (store_of store) same) written, sym (ap lock_of same))
  ]

  -- If a single operation returns no error, then what it put into the batch, with the new count
  -- behind it, was written as one, and the write lock is free again.
  pub in_transaction-returns :
      (diff : ℕ) (write_ops : Store → List Op → Option Error × List Op) (db db' : Db Store)
      → in_transaction codec ldb info diff write_ops db ≡ returns (none, db')
      → (batch : List Op) × (write_ops db.store [] ≡ (none, batch))
        × Written db (add_int 0 diff) batch db'.store
        × (db.locked ≡ false)
        × (db'.locked ≡ false)
  unfolding in_transaction open_transaction update_internal_count
  in_transaction-returns diff write_ops db db' h = elim (Bool-cases db.locked) [
    | inl l ↦ let bad = simp (l, in_transaction, open_transaction) at h in cc
    | inr l ↦ elim (Option-cases (write_ops db.store []).0) [
      | inl e ↦
          let h' = simp (l, e, in_transaction, open_transaction) at h in
          let batch = (write_ops db.store []).1 in
          let (w, l') =
            commit_or_discard-returns (record { store = db.store; locked = true }) db' batch
              (add_int 0 diff) [] h' in
          (
            batch,
            ap (λ e. (e, batch)) e,
            record { existing = w.existing; counted = w.counted; wrote = w.wrote },
            l,
            l',
          )
      | inr (e, f) ↦ let h' = simp (l, f, in_transaction, open_transaction) at h in cc
    ]
  ]
