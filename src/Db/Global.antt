-- ===== src/Db/Global.antt =====
-- db/global_transaction.go: a transaction over all collections. The models of all collections are
-- one type, of which the codec tells the Go types apart. A collection stands for its pointer by its
-- name, which `NewCollection` makes unique. The order of the list of counts stands for Go's order of
-- the map.
pub mod Commit
pub mod Counts
use x_mesh.Prelude.{ℕ, Bool, true, false, Option, none, some, List, [], ◌∷◌, ◌++◌, if◌then◌else◌}
use x_mesh.Errors.{Error, discarded, committed, Result, ok, err}
use x_mesh.Db.Escape.{Bytes}
use x_mesh.Db.Keys.{ColInfo}
use x_mesh.Db.Ldb.{Op, Ldb, Codec, same_bytes}
use x_mesh.Db.Operations.{
  add_int, insert_with_transaction, update_with_transaction, delete_with_transaction,
  update_count_with_transaction,
}
use x_mesh.Db.Transaction.{Call, returns, blocks, Db, minus_one}

-- an entry of `internalCounts`
pub record InternalCount (Model : Type 0) : Type 0 where
  pub info : ColInfo Model
  pub diff : ℕ

pub record GlobalTransaction (Model : Type 0) : Type 0 where
  pub batch : List Op
  pub is_held : Bool
  pub is_committed : Bool
  pub is_discarded : Bool
  pub internal_counts : List (InternalCount Model)

module _ {Model : Type 0} where
  unfoldable pub global_check_state : GlobalTransaction Model → Option Error
  global_check_state txn =
      if txn.is_discarded then some discarded else if txn.is_committed then some committed else none

  -- the map of `updateInternalCount`
  unfoldable pub add_count :
      ColInfo Model → ℕ → List (InternalCount Model) → List (InternalCount Model)
  unfolding add_int
  add_count info diff [] = record { info = info; diff = diff } ∷ []
  add_count info diff (c ∷ counts) =
      let rest = add_count info diff counts in
      if same_bytes c.info.name info.name
      then record c { diff = add_int c.diff diff } ∷ counts
      else c ∷ rest

  abbrev pub global_unlock {ℓ} :
      {A : Type ℓ} → Call (A × GlobalTransaction Model) → Call (A × GlobalTransaction Model)
  global_unlock (returns (a, txn)) = returns (a, record txn { is_held = false })
  global_unlock blocks = blocks

  -- `mut.Lock()`, a body and the deferred `mut.Unlock()`
  unfoldable pub global_with_lock {ℓ} :
      {A : Type ℓ}
      → (GlobalTransaction Model → Call (A × GlobalTransaction Model))
      → GlobalTransaction Model
      → Call (A × GlobalTransaction Model)
  global_with_lock body txn =
      if txn.is_held then blocks else global_unlock (body (record txn { is_held = true }))

module _ {Model Store : Type 0} (codec : Codec Model) (ldb : Ldb Store) where
  -- `colLock` and `globalWriteLock` are taken and given back together: `locked` is whether anything
  -- holds them.
  unfoldable pub open_global_transaction : Db Store → Call (GlobalTransaction Model × Db Store)
  open_global_transaction db =
      if db.locked
      then blocks
      else returns (
        record {
          batch = [];
          is_held = false;
          is_committed = false;
          is_discarded = false;
          internal_counts = [];
        },
        record db { locked = true },
      )

  global_discard_body :
      Db Store
      → GlobalTransaction Model
      → Call ((Option Error × Db Store) × GlobalTransaction Model)
  global_discard_body db txn =
      if txn.is_committed
      then returns ((some committed, db), txn)
      else if txn.is_discarded
      then returns ((none, db), txn)
      else returns ((none, record db { locked = false }), record txn { is_discarded = true })

  unfoldable pub global_discard :
      Db Store
      → GlobalTransaction Model
      → Call ((Option Error × Db Store) × GlobalTransaction Model)
  unfolding global_discard_body global_with_lock
  global_discard db txn = global_with_lock (global_discard_body db) txn

  -- `_ = txn.Discard()` and `return err`
  unfoldable pub global_discard_with :
      Error
      → Db Store
      → GlobalTransaction Model
      → Call ((Option Error × Db Store) × GlobalTransaction Model)
  unfolding global_discard
  global_discard_with e db txn = elim (global_discard db txn) [
    | returns ((_, db'), txn') ↦ returns ((some e, db'), txn')
    | blocks ↦ blocks
  ]

  -- the loop of `Commit` over `internalCounts`
  unfoldable pub update_counts :
      List (InternalCount Model) → Store → List Op → Option Error × List Op
  update_counts [] s batch = (none, batch)
  update_counts (c ∷ counts) s batch =
      let (failed, batch') = update_count_with_transaction codec ldb c.info s c.diff batch in
      elim failed [ some e ↦ (some e, batch') | none ↦ update_counts counts s batch' ]

  -- `Commit` behind the write of the batch
  global_after_write :
      Result Store
      → Db Store
      → GlobalTransaction Model
      → Call ((Option Error × Db Store) × GlobalTransaction Model)
  unfolding global_discard_with
  global_after_write (err e) db txn = global_discard_with e db txn
  global_after_write (ok store) db txn =
      returns ((none, record { store = store; locked = false }), record txn { is_committed = true })

  -- `Commit` behind the loop
  global_after_counts :
      Option Error × List Op
      → Db Store
      → GlobalTransaction Model
      → Call ((Option Error × Db Store) × GlobalTransaction Model)
  unfolding global_discard_with global_after_write
  global_after_counts (some e, batch) db txn =
      global_discard_with e db (record txn { batch = batch })
  global_after_counts (none, batch) db txn =
      global_after_write (ldb.write db.store batch) db (record txn { batch = batch })

  global_commit_body :
      Db Store
      → GlobalTransaction Model
      → Call ((Option Error × Db Store) × GlobalTransaction Model)
  unfolding global_check_state global_after_counts update_counts
  global_commit_body db txn = elim (global_check_state txn) [
    | some e ↦ returns ((some e, db), txn)
    | none ↦ global_after_counts (update_counts txn.internal_counts db.store txn.batch) db txn
  ]

  unfoldable pub global_commit :
      Db Store
      → GlobalTransaction Model
      → Call ((Option Error × Db Store) × GlobalTransaction Model)
  unfolding global_commit_body global_with_lock
  global_commit db txn = global_with_lock (global_commit_body db) txn

  -- What `Insert`, `Update` and `Delete` share: the check of the state, the operation on the batch,
  -- and a note of the count.
  unfoldable pub global_queue :
      (List (InternalCount Model) → List (InternalCount Model))
      → (List Op → Option Error × List Op)
      → GlobalTransaction Model
      → Call (Option Error × GlobalTransaction Model)
  unfolding global_check_state
  global_queue note write_ops txn = if txn.is_held then blocks else elim (global_check_state txn) [
    | some e ↦ returns (some e, txn)
    | none ↦
        let (failed, batch) = write_ops txn.batch in
        elim failed [
          | some e ↦ returns (some e, record txn { batch = batch })
          | none ↦
              returns
                (none, record txn { batch = batch; internal_counts = note txn.internal_counts })
        ]
  ]

  unfoldable pub global_insert :
      Db Store
      → ColInfo Model
      → Model
      → GlobalTransaction Model
      → Call (Option Error × GlobalTransaction Model)
  unfolding global_queue add_count
  global_insert db info model =
      global_queue (add_count info 1) (insert_with_transaction codec ldb info db.store model)

  unfoldable pub global_update :
      Db Store
      → ColInfo Model
      → Model
      → GlobalTransaction Model
      → Call (Option Error × GlobalTransaction Model)
  unfolding global_queue
  global_update db info model =
      global_queue (λ counts. counts) (update_with_transaction codec ldb info db.store model)

  unfoldable pub global_delete :
      Db Store
      → ColInfo Model
      → Bytes
      → GlobalTransaction Model
      → Call (Option Error × GlobalTransaction Model)
  unfolding global_queue add_count
  global_delete db info id =
      global_queue (add_count info minus_one) (delete_with_transaction codec ldb info db.store id)
