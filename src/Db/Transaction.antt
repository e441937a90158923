-- ===== src/Db/Transaction.antt =====
-- db/transaction.go and db/collection.go: a transaction of one collection, and the single
-- operations, each in a transaction of its own. A method that waits for a lock that is not given
-- back `blocks`.
pub mod Commit
pub mod Effects
pub mod Single
pub mod Total
pub mod Appends
pub mod Affected
pub mod Untouched
use x_mesh.Prelude.{
  ℕ, ◌+◌, ◌-◌, ◌^◌, Bool, true, false, ◌||◌, Option, none, some, List, [], ◌∷◌, ◌++◌, String,
  if◌then◌else◌,
}
use x_mesh.Errors.{Error, discarded, committed, conflicting_operations, Result, ok, err}
use x_mesh.Db.Escape.{Bytes}
use x_mesh.Db.Keys.{ColInfo}
use x_mesh.Db.Ldb.{Op, Ldb, Codec, same_bytes}
use x_mesh.StringSet.{contains}
use x_mesh.Db.Operations.{
  add_int, insert_with_transaction, update_with_transaction, delete_with_transaction,
  update_count_with_transaction,
}

-- What a call that may wait comes to.
pub data Call {ℓ} (A : Type ℓ) : Type ℓ where
  returns : A → Call A
  blocks : Call A

-- The key-value store, and whether the write lock `writeMut` of the collection is held. A
-- transaction also holds the global lock for reading, together with `writeMut`.
pub record Db (Store : Type 0) : Type 0 where
  pub store : Store
  pub locked : Bool

-- `is_held` is whether `mut` is held. `internal_count` is the 64 bits of an `int64`.
pub record Transaction : Type 0 where
  pub batch : List Op
  pub is_held : Bool
  pub is_committed : Bool
  pub is_discarded : Bool
  pub internal_count : ℕ
  pub affected_ids : List Bytes

-- the 64 bits of -1
abbrev pub minus_one : ℕ
minus_one = 2 ^ 64 - 1

unfoldable pub check_state : Transaction → Option Error
check_state txn =
    if txn.is_discarded then some discarded else if txn.is_committed then some committed else none

-- `mut.Unlock()` behind a body that holds the lock
abbrev pub unlock {ℓ} : {A : Type ℓ} → Call (A × Transaction) → Call (A × Transaction)
unlock (returns (a, txn)) = returns (a, record txn { is_held = false })
unlock blocks = blocks

-- `mut.Lock()`, a body and the deferred `mut.Unlock()`
unfoldable pub with_lock {ℓ} :
    {A : Type ℓ} → (Transaction → Call (A × Transaction)) → Transaction → Call (A × Transaction)
with_lock body txn = if txn.is_held then blocks else unlock (body (record txn { is_held = true }))

unfoldable pub update_internal_count : ℕ → Transaction → Transaction
unfolding add_int
update_internal_count diff txn = record txn { internal_count = add_int txn.internal_count diff }

module _ {Model Store : Type 0} (codec : Codec Model) (ldb : Ldb Store) (info : ColInfo Model) where
  unfoldable pub open_transaction : Db Store → Call (Transaction × Db Store)
  open_transaction db =
      if db.locked
      then blocks
      else returns (
        record {
          batch = [];
          is_held = false;
          is_committed = false;
          is_discarded = false;
          internal_count = 0;
          affected_ids = [];
        },
        record db { locked = true },
      )

  discard_body : Db Store → Transaction → Call ((Option Error × Db Store) × Transaction)
  discard_body db txn =
      if txn.is_committed
      then returns ((some committed, db), txn)
      else if txn.is_discarded
      then returns ((none, db), txn)
      else returns ((none, record db { locked = false }), record txn { is_discarded = true })

  unfoldable pub discard : Db Store → Transaction → Call ((Option Error × Db Store) × Transaction)
  unfolding discard_body with_lock
  discard db txn = with_lock (discard_body db) txn

  -- `_ = txn.Discard()` and `return err`
  unfoldable pub discard_with :
      Error → Db Store → Transaction → Call ((Option Error × Db Store) × Transaction)
  unfolding discard
  discard_with e db txn = elim (discard db txn) [
    | returns ((_, db'), txn') ↦ returns ((some e, db'), txn')
    | blocks ↦ blocks
  ]

  -- `Commit` behind the write of the batch
  after_write :
      Result Store → Db Store → Transaction → Call ((Option Error × Db Store) × Transaction)
  unfolding discard_with
  after_write (err e) db txn = discard_with e db txn
  after_write (ok store) db txn =
      returns ((none, record { store = store; locked = false }), record txn { is_committed = true })

  -- `Commit` behind the update of the count
  after_count :
      Option Error × List Op
      → Db Store
      → Transaction
      → Call ((Option Error × Db Store) × Transaction)
  unfolding discard_with after_write
  after_count (some e, batch) db txn = discard_with e db (record txn { batch = batch })
  after_count (none, batch) db txn =
      after_write (ldb.write db.store batch) db (record txn { batch = batch })

  commit_body : Db Store → Transaction → Call ((Option Error × Db Store) × Transaction)
  unfolding check_state after_count
  commit_body db txn = elim (check_state txn) [
    | some e ↦ returns ((some e, db), txn)
    | none ↦
        after_count
          (update_count_with_transaction codec ldb info db.store txn.internal_count txn.batch) db
          txn
  ]

  unfoldable pub commit : Db Store → Transaction → Call ((Option Error × Db Store) × Transaction)
  unfolding commit_body with_lock
  commit db txn = with_lock (commit_body db) txn

  -- What `Insert`, `Update` and `Delete` of a transaction share: the checks, the operation on the
  -- batch, and the notes of the count and of the ID.
  unfoldable pub queue :
      String
      → Bytes
      → ℕ
      → (List Op → Option Error × List Op)
      → Transaction
      → Call (Option Error × Transaction)
  unfolding with_lock check_state contains update_internal_count
  queue operation id diff write_ops txn =
      with_lock
        (λ txn. elim (check_state txn) [
          | some e ↦ returns (some e, txn)
          | none ↦
              if contains txn.affected_ids id
              then returns (some (conflicting_operations operation), txn)
              else (let (failed, batch) = write_ops txn.batch in
                  let written = record txn { batch = batch } in
                  elim failed [
                    | some e ↦ returns (some e, written)
                    | none ↦ returns (
                      none,
                      update_internal_count diff
                          (record written { affected_ids = id ∷ txn.affected_ids }),
                    )
                  ])
        ])
        txn

  unfoldable pub queue_insert : Db Store → Model → Transaction → Call (Option Error × Transaction)
  unfolding queue
  queue_insert db model =
      queue "insert" (codec.id model) 1 (insert_with_transaction codec ldb info db.store model)

  unfoldable pub queue_update : Db Store → Model → Transaction → Call (Option Error × Transaction)
  unfolding queue
  queue_update db model =
      queue "update" (codec.id model) 0 (update_with_transaction codec ldb info db.store model)

  unfoldable pub queue_delete : Db Store → Bytes → Transaction → Call (Option Error × Transaction)
  unfolding queue
  queue_delete db id =
      queue "delete" id minus_one (delete_with_transaction codec ldb info db.store id)

  -- the error and the database that a method of a collection leaves
  abbrev outcome : Call ((Option Error × Db Store) × Transaction) → Call (Option Error × Db Store)
  outcome (returns (r, txn)) = returns r
  outcome blocks = blocks

  -- `Commit` and, if it fails, `Discard`
  unfoldable pub commit_or_discard : Db Store → Transaction → Call (Option Error × Db Store)
  unfolding commit discard_with
  commit_or_discard db txn = elim (commit db txn) [
    | blocks ↦ blocks
    | returns ((none, db'), txn') ↦ returns (none, db')
    | returns ((some e, db'), txn') ↦ outcome (discard_with e db' txn')
  ]

  -- What `Insert`, `Update` and `Delete` of a collection share.
  unfoldable pub in_transaction :
      ℕ → (Store → List Op → Option Error × List Op) → Db Store → Call (Option Error × Db Store)
  unfolding open_transaction discard_with commit_or_discard update_internal_count
  in_transaction diff write_ops db = elim (open_transaction db) [
    | blocks ↦ blocks
    | returns (txn, db') ↦
        let (failed, batch) = write_ops db'.store txn.batch in
        let written = record txn { batch = batch } in
        elim failed [
          | some e ↦ outcome (discard_with e db' written)
          | none ↦ commit_or_discard db' (update_internal_count diff written)
        ]
  ]

  unfoldable pub insert_model : Model → Db Store → Call (Option Error × Db Store)
  unfolding in_transaction
  insert_model model = in_transaction 1 (λ s. insert_with_transaction codec ldb info s model)

  unfoldable pub update_model : Model → Db Store → Call (Option Error × Db Store)
  unfolding in_transaction
  update_model model = in_transaction 0 (λ s. update_with_transaction codec ldb info s model)

  unfoldable pub delete_model : Bytes → Db Store → Call (Option Error × Db Store)
  unfolding in_transaction
  delete_model id = in_transaction minus_one (λ s. delete_with_transaction codec ldb info s id)
