-- ===== src/Db/Global/Commit.antt =====
-- `Commit` of a global transaction (db/global_transaction.go).
use x_mesh.Prelude.{
  ℕ, ◌≡◌, refl, ap, sym, ◌∙◌, ◌⊎◌, inl, inr, true, false, Option, none, some, List, [], ◌∷◌, ◌++◌,
  All, append_assoc, append-nil,
}
use x_mesh.Errors.{Error, committed, Result, ok, err, Result-cases}
use x_mesh.Db.Ldb.{Op, Ldb, Codec}
use x_mesh.Db.Operations.{add_int, count, count_op, update_count_with_transaction}
use x_mesh.Db.Transaction.{returns, blocks, Db}
use x_mesh.Db.Global.{
  InternalCount, GlobalTransaction, global_check_state, global_unlock, global_with_lock,
  update_counts, global_after_write, global_after_counts, global_commit_body, global_commit,
  global_discard, global_discard_body, global_discard_with,
}

-- A global transaction that takes operations: no method is running, and it is not closed.
abbrev pub global_opened :
    {Model : Type 0} → List Op → List (InternalCount Model) → GlobalTransaction Model
global_opened batch counts = record {
  batch = batch;
  is_held = false;
  is_committed = false;
  is_discarded = false;
  internal_counts = counts;
}

module _ {Model Store : Type 0} (codec : Codec Model) (ldb : Ldb Store) where
  -- For each count, in order, that it is read, and that the operations store the new one.
  abbrev pub CountOps : Store → List (InternalCount Model) → List Op → Type 0
  CountOps s [] ops = ops ≡ []
  CountOps s (c ∷ counts) ops =
      (n : ℕ) × (rest : List Op) × (count codec ldb c.info s ≡ ok n)
      × (ops ≡ count_op codec ldb c.info (add_int n c.diff) ∷ rest)
      × CountOps s counts rest

  update_count-err :
      (c : InternalCount Model) (s : Store) (batch : List Op) (e : Error)
      → count codec ldb c.info s ≡ err e
      → update_count_with_transaction codec ldb c.info s c.diff batch ≡ (some e, batch)
  unfolding update_count_with_transaction
  update_count-err c s batch e h = rw (h, update_count_with_transaction) refl

  update_count-ok :
      (c : InternalCount Model) (s : Store) (batch : List Op) (n : ℕ)
      → count codec ldb c.info s ≡ ok n
      → update_count_with_transaction codec ldb c.info s c.diff batch
        ≡ (none, batch ++ count_op codec ldb c.info (add_int n c.diff) ∷ [])
  unfolding update_count_with_transaction
  update_count-ok c s batch n h = rw (h, update_count_with_transaction) refl

  -- The first of the counts that cannot be read, with its error.
  abbrev pub CannotRead : Store → List (InternalCount Model) → Error → Type 0
  CannotRead s counts e =
      (before : List (InternalCount Model)) × (c : InternalCount Model) × (after : List
        (InternalCount Model))
      × (counts ≡ before ++ c ∷ after)
      × All (λ b. (n : ℕ) × (count codec ldb b.info s ≡ ok n)) before
      × (count codec ldb c.info s ≡ err e)

  update_counts-cases :
      (counts : List (InternalCount Model)) (s : Store) (batch : List Op)
      → ((e : Error) × (batch' : List Op) × CannotRead s counts e
          × (update_counts codec ldb counts s batch ≡ (some e, batch')))
        ⊎ ((ops : List Op) × CountOps s counts ops
            × (update_counts codec ldb counts s batch ≡ (none, batch ++ ops)))
  unfolding update_counts
  update_counts-cases [] s batch = inr ([], refl, ap (λ b. (none, b)) (sym (append-nil batch)))
  update_counts-cases (c ∷ counts) s batch = elim (Result-cases (count codec ldb c.info s)) [
    | inr (e, h) ↦ inl (
      e,
      batch,
      ([], c, counts, refl, tt, h),
      ap (after_first c counts s) (update_count-err c s batch e h),
    )
    | inl (n, h) ↦
        let op = count_op codec ldb c.info (add_int n c.diff) in
        let here = ap (after_first c counts s) (update_count-ok c s batch n h) in
        elim (update_counts-cases counts s (batch ++ op ∷ [])) [
          | inl (e, batch', (before, bad, after, same, read, unread), f) ↦ inl (
            e,
            batch',
            (c ∷ before, bad, after, ap (◌∷◌ c) same, ((n, h), read), unread),
            here ∙ f,
          )
          | inr (ops, counted, f) ↦ inr (
            op ∷ ops,
            (n, ops, h, refl, counted),
            here ∙ f ∙ ap (λ b. (none, b)) (append_assoc batch (op ∷ []) ops),
          )
        ]
  ]
    where
      after_first :
          InternalCount Model
          → List (InternalCount Model)
          → Store
          → Option Error × List Op
          → Option Error × List Op
      after_first c counts s r = elim (r.0) [
        | some e ↦ (some e, r.1)
        | none ↦ update_counts codec ldb counts s r.1
      ]

  -- A count cannot be read, or the write fails.
  abbrev pub CannotCommitAll : Db Store → List Op → List (InternalCount Model) → Error → Type 0
  CannotCommitAll db batch counts e =
      CannotRead db.store counts e
      ⊎ ((ops : List Op) × CountOps db.store counts ops
          × (ldb.write db.store (batch ++ ops) ≡ err e))

  -- The commit of an open global transaction writes the batch, with the new count of each
  -- collection behind it, as one, closes the transaction, gives the locks back and returns no
  -- error; or one of the counts cannot be read while those before it can, or all can be read and
  -- the write fails, and the commit never returns.
  pub global_commit-cases :
      (db : Db Store) (batch : List Op) (counts : List (InternalCount Model))
      → ((e : Error) × CannotCommitAll db batch counts e
          × (global_commit codec ldb db (global_opened batch counts) ≡ blocks))
        ⊎ ((ops : List Op) × (store : Store) × (txn' : GlobalTransaction Model) × CountOps db.store
              counts ops
            × (ldb.write db.store (batch ++ ops) ≡ ok store)
            × (global_check_state txn' ≡ some committed)
            × (txn'.is_held ≡ false)
            × (global_commit codec ldb db (global_opened batch counts)
                ≡ returns ((none, record { store = store; locked = false }), txn')))
  unfolding global_commit global_commit_body global_with_lock global_check_state global_discard_with
      global_discard global_discard_body global_after_counts global_after_write
  global_commit-cases db batch counts =
      let held = record (global_opened batch counts) { is_held = true } in
      let behind =
        λ (c : Option Error × List Op). global_unlock (global_after_counts codec ldb c db held) in
      elim (update_counts-cases counts db.store batch) [
        | inl (e, batch', unread, f) ↦ inl (e, inl unread, ap behind f)
        | inr (ops, counted, f) ↦
            let step = λ (r : Result Store).
              global_unlock
                (global_after_write codec ldb r db (record held { batch = batch ++ ops })) in
            elim (Result-cases (ldb.write db.store (batch ++ ops))) [
              | inr (e, w) ↦ inl (e, inr (ops, counted, w), ap behind f ∙ ap step w)
              | inl (store, w) ↦ inr (
                ops,
                store,
                record (global_opened batch counts) { batch = batch ++ ops; is_committed = true },
                counted,
                w,
                refl,
                refl,
                ap behind f ∙ ap step w,
              )
            ]
      ]
