-- ===== src/OrderWatch.antt =====
-- zeroex/orderwatch/order_watcher.go and the `Order` of meshdb/meshdb.go: the updates of one order,
-- which the handlers of block events share.
pub mod Add
pub mod Changed
pub mod Contracts
pub mod Headers
pub mod Known
pub mod Results
pub mod Expirations
pub mod Specific
pub mod Trim
pub mod Watching
use x_mesh.Prelude.{ℕ, suc, ◌+◌, ◌*◌, Bool, true, false, Option, none, some, List, String}
use x_mesh.Errors.{Error, conflicting_operations, not_found, Result, ok, err}
use x_mesh.Db.Escape.{Bytes}
use x_mesh.Db.Keys.{ColInfo}
use x_mesh.Db.Ldb.{Ldb, Codec}
use x_mesh.Db.Transaction.{Call, returns, blocks, Db, Transaction, queue_update, queue_delete}
use x_mesh.Orders.{SignedOrder}
use x_mesh.ExpirationWatch.{RbTree, nanoseconds, add_item, remove_item}

-- `meshdb.Order`; times are in nanoseconds.
pub record Order : Type 0 where
  pub hash : ℕ
  pub signed_order : SignedOrder
  pub last_updated : ℕ
  pub fillable_taker_asset_amount : ℕ
  pub is_removed : Bool
  pub is_pinned : Bool

-- `time.Unix(order.SignedOrder.ExpirationTimeSeconds.Int64(), 0)`
unfoldable pub expiration_of : SignedOrder → ℕ
expiration_of signed = signed.expiration_time_seconds * nanoseconds

-- What the handlers of one batch of block events change besides the order: the watcher of expiration
-- times, the open transaction on the orders, and how often the clock was read.
pub record Books (T : Type 0) : Type 0 where
  pub tree : T
  pub txn : Transaction
  pub ticks : ℕ

-- What the order watcher takes from elsewhere: the tree, the orders as a collection of the database,
-- `Hash.Hex()` and `time.Now().UTC()`, whose readings may be any. `db` is the database at the time of the
-- batch, whose transaction is open.
pub record Setting (T Store : Type 0) : Type 1 where
  pub rb_tree : RbTree T
  pub codec : Codec Order
  pub ldb : Ldb Store
  pub info : ColInfo Order
  pub db : Db Store
  pub hex : ℕ → Bytes
  pub now : ℕ → ℕ

module _ {T Store : Type 0} (s : Setting T Store) where
  -- `u.Update(order)` on the transaction: an error is logged only. The transaction's own mutex is
  -- free between two calls, so that `blocks` does not come up.
  unfoldable pub update_logged : Order → Transaction → Transaction
  update_logged order txn = elim (queue_update s.codec s.ldb s.info s.db order txn) [
    | returns (_, txn') ↦ txn'
    | blocks ↦ txn
  ]

  unfoldable pub update_order_db_entry : Order → Books T → Order × Books T
  unfolding update_logged
  update_order_db_entry order b =
      let order' = record order { last_updated = s.now b.ticks } in
      (order', record b { txn = update_logged order' b.txn; ticks = suc b.ticks })

  unfoldable pub rewatch_order : Order → ℕ → Books T → Order × Books T
  unfolding update_logged expiration_of
  rewatch_order order amount b =
      let order' = record order {
        is_removed = false;
        last_updated = s.now b.ticks;
        fillable_taker_asset_amount = amount;
      } in
      (
        order',
        record {
          tree = add_item s.rb_tree (expiration_of order.signed_order) (s.hex order.hash) b.tree;
          txn = update_logged order' b.txn;
          ticks = suc b.ticks;
        },
      )

  unfoldable pub unwatch_order : Order → ℕ → Books T → Order × Books T
  unfolding update_logged expiration_of
  unwatch_order order amount b =
      let order' = record order {
        is_removed = true;
        last_updated = s.now b.ticks;
        fillable_taker_asset_amount = amount;
      } in
      (
        order',
        record {
          tree = remove_item s.rb_tree (expiration_of order.signed_order) (s.hex order.hash) b.tree;
          txn = update_logged order' b.txn;
          ticks = suc b.ticks;
        },
      )
