-- ===== src/OrderWatch/Expirations.antt =====
-- `handleOrderExpirations` of zeroex/orderwatch/order_watcher.go, with `FindRemovedOrders` of
-- meshdb/meshdb.go.
pub mod Expired
use x_mesh.Prelude.{
  ℕ, Bool, true, false, Option, none, some, List, [], ◌∷◌, ◌++◌, ◌==◌, ◌||◌, ltb, if◌then◌else◌,
}
use x_mesh.Errors.{Error, out_of_fuel, Result, ok, err}
use x_mesh.Db.Escape.{Bytes}
use x_mesh.Db.Keys.{Index}
use x_mesh.Db.Operations.{find_by_id}
use x_mesh.Db.Query.{Slice, Iterator, value_filter, new_query, run}
use x_mesh.Orders.{OrderEvent, es_order_expired, es_order_unexpired}
use x_mesh.ExpirationWatch.{ExpiredItem, prune}
use x_mesh.OrderWatch.{Order, Books, Setting, expiration_of, rewatch_order, unwatch_order}

-- `isRemovedIndex`
unfoldable pub is_removed_index : Index Order
is_removed_index = record {
  name = 105 ∷ 115 ∷ 82 ∷ 101 ∷ 109 ∷ 111 ∷ 118 ∷ 101 ∷ 100 ∷ [];
  getter = λ order. (if order.is_removed then 1 ∷ [] else 0 ∷ []) ∷ [];
}

-- `_, ok := ordersToRevalidate[hash]`
unfoldable pub is_among : ℕ → List ℕ → Bool
is_among hash [] = false
is_among hash (h ∷ hs) = h == hash || is_among hash hs

-- `iterate` is the iterator of the database over a slice of its keys. `hex_to_hash` and `hash_bytes`
-- are `common.HexToHash` and `Hash.Bytes()`.
module _ {T Store : Type 0} (s : Setting T Store) (iterate : Slice → Iterator)
    (hex_to_hash : Bytes → ℕ) (hash_bytes : ℕ → Bytes) where
  unfoldable pub find_removed_orders : Result (List Order)
  unfolding is_removed_index
  find_removed_orders =
      let filter = value_filter s.info is_removed_index (1 ∷ []) in
      run s.codec s.ldb s.info s.db.store (iterate filter.slice) (new_query filter)

  -- `FindByID` into a new Order, which has the type of the collection
  abbrev pub find_stored : ℕ → Result Order
  find_stored hash = find_by_id s.codec s.ldb s.info s.db.store (hash_bytes hash) s.info.model_type

  module _ (latest : ℕ) where
    abbrev pub expired_event : ℕ → Order → OrderEvent
    expired_event hash order = record {
      timestamp = latest;
      order_hash = hash;
      signed_order = order.signed_order;
      fillable_taker_asset_amount = 0;
      end_state = es_order_expired;
      contract_events = [];
    }

    abbrev pub unexpired_event : Order → OrderEvent
    unexpired_event order = record {
      timestamp = latest;
      order_hash = order.hash;
      signed_order = order.signed_order;
      fillable_taker_asset_amount = order.fillable_taker_asset_amount;
      end_state = es_order_unexpired;
      contract_events = [];
    }

    -- The body of the loop over the expired orders, for an order that will not be validated again.
    unfoldable pub expire_found :
        Result Order → ℕ → List OrderEvent × Books T → List OrderEvent × Books T
    unfolding unwatch_order
    expire_found (err e) hash done = done
    expire_found (ok order) hash (events, b) =
        let (order', b') = unwatch_order s order order.fillable_taker_asset_amount b in
        (events ++ expired_event hash order' ∷ [], b')

    unfoldable pub expire_all :
        List ℕ → List ExpiredItem → List OrderEvent × Books T → List OrderEvent × Books T
    unfolding expire_found is_among
    expire_all to_revalidate [] done = done
    expire_all to_revalidate (item ∷ items) done =
        let hash = hex_to_hash item.id in
        expire_all to_revalidate items
          (if is_among hash to_revalidate then done else expire_found (find_stored hash) hash done)

    -- an order that was flagged for removal, is fillable and does not expire before the block
    unfoldable pub is_unexpired : List ℕ → Order → Bool
    unfolding is_among expiration_of
    is_unexpired to_revalidate order =
        if order.fillable_taker_asset_amount == 0
        then false
        else if is_among order.hash to_revalidate
        then false
        else ltb latest (expiration_of order.signed_order)

    -- the loop over the orders that are flagged for removal
    unfoldable pub unexpire_all :
        List ℕ → List Order → List OrderEvent × Books T → List OrderEvent × Books T
    unfolding rewatch_order is_unexpired
    unexpire_all to_revalidate [] done = done
    unexpire_all to_revalidate (order ∷ orders) (events, b) =
        elim (is_unexpired to_revalidate order) [
          | false ↦ unexpire_all to_revalidate orders (events, b)
          | true ↦
              let (order', b') = rewatch_order s order order.fillable_taker_asset_amount b in
              unexpire_all to_revalidate orders (events ++ unexpired_event order' ∷ [], b')
        ]

    -- behind the call of `Prune`
    unfoldable pub expire_pruned :
        Option (List ExpiredItem × T)
        → List ℕ
        → Books T
        → Option Error × (List OrderEvent × Books T)
    unfolding expire_all
    expire_pruned none to_revalidate b = (some out_of_fuel, ([], b))
    expire_pruned (some (items, tree)) to_revalidate b =
        (none, expire_all to_revalidate items ([], record b { tree = tree }))

    unfoldable pub unexpire_found :
        Result (List Order) → List ℕ → Books T → Option Error × (List OrderEvent × Books T)
    unfolding unexpire_all
    unexpire_found (err e) to_revalidate b = (some e, ([], b))
    unexpire_found (ok orders) to_revalidate b = (none, unexpire_all to_revalidate orders ([], b))

    -- `previous` is none for the zero time. `fuel` is that of `Prune`.
    unfoldable pub handle_order_expirations :
        ℕ → Option ℕ → List ℕ → Books T → Option Error × (List OrderEvent × Books T)
    unfolding expire_pruned unexpire_found find_removed_orders
    handle_order_expirations fuel none to_revalidate b =
        expire_pruned (prune s.rb_tree fuel latest b.tree) to_revalidate b
    handle_order_expirations fuel (some previous) to_revalidate b =
        if ltb previous latest
        then expire_pruned (prune s.rb_tree fuel latest b.tree) to_revalidate b
        else if ltb latest previous
        then unexpire_found find_removed_orders to_revalidate b
        else (none, ([], b))
