-- ===== src/OrderWatch/Trim.antt =====
-- `TrimOrdersByExpirationTime` of meshdb/meshdb.go and `trimOrdersAndGenerateEvents` of
-- zeroex/orderwatch/order_watcher.go, which make room when the database is full.
pub mod Forget
pub mod Last
pub mod Raise
pub mod Stopped
use x_mesh.Prelude.{
  ℕ, zero, suc, ◌+◌, ◌-◌, ◌^◌, Bool, true, false, Option, none, some, List, [], ◌∷◌, ◌++◌, ltb, leb,
  length, get_last?, if◌then◌else◌,
}
use x_mesh.Errors.{Error, other, panic, Result, ok, err}
use x_mesh.Db.Escape.{Bytes}
use x_mesh.Db.Keys.{Index}
use x_mesh.Db.Operations.{count}
use x_mesh.Db.Transaction.{
  Call, returns, blocks, Db, Transaction, open_transaction, discard, queue_delete, commit,
}
use x_mesh.Db.Query.{Slice, Iterator, prefix_filter, new_query, set_reverse, set_max, run}
use x_mesh.Orders.{SignedOrder, OrderEvent, es_stopped_watching}
use x_mesh.AssetData.{Abi}
use x_mesh.ExpirationWatch.{remove_item}
use x_mesh.SlowCounter.{SlowCounter, BigFloat, reset_counter}
use x_mesh.OrderWatch.{Order, Setting, expiration_of}
use x_mesh.OrderWatch.Contracts.{Contracts, remove_asset_data}

abbrev pub unlimited_expiration_time : ℕ
unlimited_expiration_time = 2 ^ 256 - 1

abbrev zeros : ℕ → Bytes
zeros zero = []
zeros (suc n) = 48 ∷ zeros n

-- `fmt.Sprintf("%080s", v.String())`; `digits` are the decimal digits of a `big.Int`.
unfoldable pub uint256_to_constant_length_bytes : (ℕ → Bytes) → ℕ → Bytes
uint256_to_constant_length_bytes digits v = zeros (80 - length (digits v)) ++ digits v

-- `expirationTimeIndex`
unfoldable pub expiration_time_index : (ℕ → Bytes) → Index Order
unfolding uint256_to_constant_length_bytes
expiration_time_index digits = record {
  name = 101 ∷ 120 ∷ 112 ∷ 105 ∷ 114 ∷ 97 ∷ 116 ∷ 105 ∷ 111 ∷ 110 ∷ 84 ∷ 105 ∷ 109 ∷ 101 ∷ [];
  getter = λ order.
      ((if order.is_pinned then 49 else 48)
        ∷ 124
        ∷ uint256_to_constant_length_bytes digits order.signed_order.expiration_time_seconds)
      ∷ [];
}

-- An order whose expiration time was lowered by one. It is positive, since expired orders are not added.
unfoldable pub lowered : Order → Order
lowered order =
    let signed = order.signed_order in
    record order {
      signed_order = record signed { expiration_time_seconds = signed.expiration_time_seconds - 1 };
    }

-- `Sub` on the expiration time of the last order writes into that order.
unfoldable pub lower_last : List Order → List Order
unfolding lowered
lower_last [] = []
lower_last (order ∷ []) = lowered order ∷ []
lower_last (order ∷ next ∷ orders) = order ∷ lower_last (next ∷ orders)

abbrev pub Trimmed : Type 0
Trimmed = Result (ℕ × List Order)

-- `newMaxExpirationTime`, by the last order
abbrev pub with_maximum : Option Order → List Order → Trimmed
with_maximum none removed = err panic
with_maximum (some last) removed = ok (last.signed_order.expiration_time_seconds, removed)

abbrev pub unless_pinned : Bool → List Order → Trimmed
unless_pinned true removed = err (other "the database is full of pinned orders")
unless_pinned false removed = with_maximum (get_last? removed) removed

-- behind the commit
unfoldable pub trimmed_result : ℕ → List Order → Trimmed
unfolding lower_last
trimmed_result to_remove removed =
    unless_pinned (ltb (length removed) to_remove) (lower_last removed)

module _ {T Store : Type 0} (s : Setting T Store) (iterate : Slice → Iterator) (digits : ℕ → Bytes)
    (hash_bytes : ℕ → Bytes) where
  unfoldable pub delete_orders :
      Db Store → List Order → Transaction → Call (Option Error × Transaction)
  delete_orders db [] txn = returns (none, txn)
  delete_orders db (order ∷ orders) txn =
      elim (queue_delete s.codec s.ldb s.info db (hash_bytes order.hash) txn) [
        | blocks ↦ blocks
        | returns (failed, txn') ↦ elim failed [
          | some e ↦ returns (some e, txn')
          | none ↦ delete_orders db orders txn'
        ]
      ]

  -- a return, behind which the transaction is discarded; the error of that is dropped
  unfoldable leave : Trimmed → Db Store → Transaction → Call (Trimmed × Db Store)
  leave result db txn = elim (discard s.codec s.ldb s.info db txn) [
    | blocks ↦ blocks
    | returns ((_, db'), txn') ↦ returns (result, db')
  ]

  unfoldable remove_found :
      Result (List Order) → ℕ → Db Store → Transaction → Call (Trimmed × Db Store)
  unfolding delete_orders leave trimmed_result
  remove_found (err e) to_remove db txn = leave (err e) db txn
  remove_found (ok removed) to_remove db txn = elim (delete_orders db removed txn) [
    | blocks ↦ blocks
    | returns (failed, txn') ↦ elim failed [
      | some e ↦ leave (err e) db txn'
      | none ↦ elim (commit s.codec s.ldb s.info db txn') [
        | blocks ↦ blocks
        | returns ((failed', db'), txn'') ↦ elim failed' [
          | some e ↦ leave (err e) db' txn''
          | none ↦ leave (trimmed_result to_remove removed) db' txn''
        ]
      ]
    ]
  ]

  unfoldable pub trim_orders_by_expiration_time : ℕ → Db Store → Call (Trimmed × Db Store)
  unfolding expiration_time_index leave remove_found
  trim_orders_by_expiration_time target db = elim (open_transaction s.codec s.ldb s.info db) [
    | blocks ↦ blocks
    | returns (txn, db') ↦ elim (count s.codec s.ldb s.info db'.store) [
      | err e ↦ leave (err e) db' txn
      | ok num_orders ↦
          if leb num_orders target
          then leave (ok (unlimited_expiration_time, [])) db' txn
          else (let filter = prefix_filter s.info (expiration_time_index digits) (48 ∷ 124 ∷ []) in
              let query = set_max (num_orders - target) (set_reverse (new_query filter)) in
              remove_found (run s.codec s.ldb s.info db'.store (iterate filter.slice) query)
                (num_orders - target) db' txn)
    ]
  ]
