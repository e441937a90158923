-- ===== src/OrderWatch/Add.antt =====
-- `add` of zeroex/orderwatch/order_watcher.go with `setupInMemoryOrderState` and
-- `decreaseMaxExpirationTimeIfNeeded`. The hash of an order is a parameter; `now` is read once for the
-- orders that are added.
pub mod Watched
use x_mesh.Prelude.{
  ℕ, ◌+◌, Bool, true, false, not, ◌&&◌, Option, none, some, List, [], ◌∷◌, ◌++◌, ltb, if◌then◌else◌,
}
use x_mesh.Errors.{Error, already_exists, conflicting_operations, Result, ok, err}
use x_mesh.Db.Escape.{Bytes}
use x_mesh.Db.Operations.{count}
use x_mesh.Db.Transaction.{
  Call, returns, blocks, Db, Transaction, open_transaction, discard, queue_insert, commit,
}
use x_mesh.Db.Query.{Slice, Iterator}
use x_mesh.Orders.{SignedOrder, OrderEvent, EndState, es_order_added, es_stopped_watching}
use x_mesh.AssetData.{Abi}
use x_mesh.OrderValidator.{AcceptedOrderInfo}
use x_mesh.ExpirationWatch.{add_item}
use x_mesh.SlowCounter.{BigFloat}
use x_mesh.OrderWatch.{Order, Setting, expiration_of}
use x_mesh.OrderWatch.Contracts.{Contracts, set_at, add_asset_data}
use x_mesh.OrderWatch.Trim.Forget.{Memory, trim_orders_and_generate_events}

abbrev pub accepted_event : ℕ → EndState → AcceptedOrderInfo → OrderEvent
accepted_event now end_state info = record {
  timestamp = now;
  order_hash = info.order_hash;
  signed_order = info.signed_order;
  fillable_taker_asset_amount = info.fillable_taker_asset_amount;
  end_state = end_state;
  contract_events = [];
}

abbrev pub order_of : ℕ → Bool → AcceptedOrderInfo → Order
order_of now pinned info = record {
  hash = info.order_hash;
  signed_order = info.signed_order;
  last_updated = now;
  fillable_taker_asset_amount = info.fillable_taker_asset_amount;
  is_removed = false;
  is_pinned = pinned;
}

-- the error of an Insert as the error that `add` returns for it
unfoldable pub insert_error : Error → Option Error
insert_error (already_exists id) = none
insert_error (conflicting_operations operation) = none
insert_error e = some e

-- What the loop of insertions ends with: `add` returns, or goes on.
pub data Inserted : Type 0 where
  leaves : Option Error → Inserted
  goes_on : Inserted

-- What the parts of `add` return: an error and the events.
abbrev pub Added : Type 0 → Type 0 → Type 0
Added T F = (Option Error × List OrderEvent) × Memory T F

module _ {T Store F : Type 0} (s : Setting T Store) (abi : Abi)
    (compute_order_hash : SignedOrder → Result ℕ) where
  -- `setupInMemoryOrderState` behind the contracts of the maker fee
  abbrev pub after_fee :
      ℕ → SignedOrder → Option Error × Contracts → Memory T F → Option Error × Memory T F
  after_fee hash order (some e, contracts) w = (some e, record w { contracts = contracts })
  after_fee hash order (none, contracts) w = (
    none,
    record w {
      contracts = contracts;
      tree = add_item s.rb_tree (expiration_of order) (s.hex hash) w.tree;
    },
  )

  -- behind the contracts of the maker asset
  abbrev pub after_maker :
      ℕ → SignedOrder → Option Error × Contracts → Memory T F → Option Error × Memory T F
  after_maker hash order (some e, contracts) w = (some e, record w { contracts = contracts })
  after_maker hash order (none, contracts) w =
      after_fee hash order
        (if ltb 0 order.maker_fee
          then add_asset_data abi order.maker_fee_asset_data contracts
          else (none, contracts))
        w

  -- behind the hash
  abbrev pub setup_hashed : SignedOrder → Result ℕ → Memory T F → Option Error × Memory T F
  setup_hashed order (err e) w = (some e, w)
  setup_hashed order (ok hash) w =
      after_maker hash order (add_asset_data abi order.maker_asset_data w.contracts)
        (record w { known_exchanges = set_at order.exchange_address true w.known_exchanges })

  unfoldable pub setup_in_memory_order_state : SignedOrder → Memory T F → Option Error × Memory T F
  unfolding expiration_of add_item add_asset_data set_at
  setup_in_memory_order_state order w = setup_hashed order (compute_order_hash order) w

  abbrev pub after_setup :
      List OrderEvent → Option Error × Memory T F → (Memory T F → Added T F) → Added T F
  after_setup events (some e, w) rest = ((some e, events), w)
  after_setup events (none, w) rest = rest w

  -- the loop behind the commit
  unfoldable pub setup_all : ℕ → List AcceptedOrderInfo → List OrderEvent → Memory T F → Added T F
  unfolding setup_in_memory_order_state
  setup_all now [] events w = ((none, events), w)
  setup_all now (info ∷ infos) events w =
      after_setup events (setup_in_memory_order_state info.signed_order w)
        (λ w'. setup_all now infos (events ++ accepted_event now es_order_added info ∷ []) w')

module _ {T Store : Type 0} (s : Setting T Store) (now : ℕ) (pinned : Bool) where
  -- the loop of insertions
  unfoldable pub insert_all :
      Db Store
      → ℕ
      → List AcceptedOrderInfo
      → List OrderEvent
      → Transaction
      → Call (Inserted × (List OrderEvent × Transaction))
  unfolding insert_error
  insert_all db max_expiration [] events txn = returns (goes_on, (events, txn))
  insert_all db max_expiration (info ∷ infos) events txn =
      elim (not pinned && ltb max_expiration info.signed_order.expiration_time_seconds) [
        | true ↦
            insert_all db max_expiration infos
              (events
                ++ accepted_event now es_order_added info
                  ∷ accepted_event now es_stopped_watching info
                  ∷ [])
              txn
        | false ↦ elim (queue_insert s.codec s.ldb s.info db (order_of now pinned info) txn) [
          | blocks ↦ blocks
          | returns (failed, txn') ↦ elim failed [
            | none ↦ insert_all db max_expiration infos events txn'
            | some e ↦ returns (leaves (insert_error e), (events, txn'))
          ]
        ]
      ]

module _ {T Store F : Type 0} (s : Setting T Store) (abi : Abi)
    (compute_order_hash : SignedOrder → Result ℕ) (now : ℕ) (pinned : Bool) where
  -- a return, behind which the transaction is discarded; the error of that is dropped
  unfoldable return_added : Added T F → Db Store → Transaction → Call (Added T F × Db Store)
  return_added result db txn = elim (discard s.codec s.ldb s.info db txn) [
    | blocks ↦ blocks
    | returns ((_, db'), txn') ↦ returns (result, db')
  ]

  -- behind the loop of insertions
  unfoldable add_inserted :
      List AcceptedOrderInfo
      → Inserted
      → List OrderEvent
      → Memory T F
      → Db Store
      → Transaction
      → Call (Added T F × Db Store)
  unfolding return_added setup_all
  add_inserted infos (leaves failed) events w db txn = return_added ((failed, events), w) db txn
  add_inserted infos goes_on events w db txn = elim (commit s.codec s.ldb s.info db txn) [
    | blocks ↦ blocks
    | returns ((failed, db'), txn') ↦ elim failed [
      | some e ↦ return_added ((some e, events), w) db' txn'
      | none ↦ return_added (setup_all s abi compute_order_hash now infos events w) db' txn'
    ]
  ]

  -- behind the trimming
  unfoldable pub add_orders :
      List AcceptedOrderInfo → List OrderEvent → Memory T F → Db Store → Call (Added T F × Db Store)
  unfolding insert_all add_inserted
  add_orders infos events w db = elim (open_transaction s.codec s.ldb s.info db) [
    | blocks ↦ blocks
    | returns (txn, db') ↦
        elim (insert_all s now pinned db' w.max_expiration_time infos events txn) [
          | blocks ↦ blocks
          | returns (inserted, (events', txn')) ↦ add_inserted infos inserted events' w db' txn'
        ]
  ]

module _ {T Store F : Type 0} (s : Setting T Store) (abi : Abi)
    (compute_order_hash : SignedOrder → Result ℕ) (iterate : Slice → Iterator) (digits : ℕ → Bytes)
    (hash_bytes : ℕ → Bytes) (max_orders target : ℕ) (trimmed_at reset_at now : ℕ)
    (float : BigFloat F) where
  unfoldable pub decrease_max_expiration_time_if_needed :
      Memory T F → Db Store → Call (Added T F × Db Store)
  unfolding trim_orders_and_generate_events
  decrease_max_expiration_time_if_needed w db = elim (count s.codec s.ldb s.info db.store) [
    | err e ↦ returns (((some e, []), w), db)
    | ok order_count ↦
        if ltb max_orders (order_count + 1)
        then trim_orders_and_generate_events s abi trimmed_at reset_at float iterate digits
            hash_bytes target db w
        else returns (((none, []), w), db)
  ]

  unfoldable pub add :
      List AcceptedOrderInfo → Bool → Memory T F → Db Store → Call (Added T F × Db Store)
  unfolding decrease_max_expiration_time_if_needed add_orders
  add infos pinned w db = elim (decrease_max_expiration_time_if_needed w db) [
    | blocks ↦ blocks
    | returns (((failed, events), w'), db') ↦ elim failed [
      | some e ↦ returns (((some e, events), w'), db')
      | none ↦ add_orders s abi compute_order_hash now pinned infos events w' db'
    ]
  ]
