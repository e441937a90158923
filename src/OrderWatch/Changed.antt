-- ===== src/OrderWatch/Changed.antt =====
-- `generateOrderEventsIfChanged` and `permanentlyDeleteOrder` of zeroex/orderwatch/order_watcher.go. What
-- `BatchValidate` answers at the block is a parameter, and the map of orders is gone through in the
-- order of its list.
use x_mesh.Prelude.{ℕ, suc, ◌-◌, ◌*◌, true, false, Option, none, some, List, [], ◌∷◌, ◌++◌, ltb}
use x_mesh.Errors.{Error, conflicting_operations, not_found, Result, ok, err}
use x_mesh.Db.Escape.{Bytes}
use x_mesh.Db.Transaction.{Call, returns, blocks, Transaction, queue_delete}
use x_mesh.Orders.{SignedOrder, ContractEvent}
use x_mesh.AssetData.{Abi}
use x_mesh.ExpirationWatch.{nanoseconds}
use x_mesh.OrderValidator.{ValidationResults}
use x_mesh.OrderWatch.{Order, Books, Setting}
use x_mesh.OrderWatch.Known.{Orders}
use x_mesh.OrderWatch.Contracts.{Contracts, remove_asset_data}
use x_mesh.OrderWatch.Results.{Progress, convert_validation_results_into_order_events}

abbrev pub permanently_delete_after : ℕ
permanently_delete_after = 5 * 60 * nanoseconds

-- `permanentlyDeleteOrder` behind the deletion
unfoldable pub after_delete : Abi → Option Error → Order → Contracts → Option Error × Contracts
unfolding remove_asset_data
after_delete abi (some (conflicting_operations operation)) order contracts = (none, contracts)
after_delete abi (some (not_found id)) order contracts = (none, contracts)
after_delete abi (some e) order contracts = (some e, contracts)
after_delete abi none order contracts =
    remove_asset_data abi order.signed_order.maker_asset_data contracts

module _ {T Store : Type 0} (s : Setting T Store) (abi : Abi) (hash_bytes : ℕ → Bytes) where
  unfoldable pub permanently_delete_order :
      Order → Transaction → Contracts → Call ((Option Error × Contracts) × Transaction)
  unfolding after_delete
  permanently_delete_order order txn contracts =
      elim (queue_delete s.codec s.ldb s.info s.db (hash_bytes order.hash) txn) [
        | blocks ↦ blocks
        | returns (failed, txn') ↦ returns (after_delete abi failed order contracts, txn')
      ]

  -- The loop over the orders; `signed_orders` are those to be validated so far.
  unfoldable pub pick_orders :
      Orders
      → List SignedOrder
      → Books T
      → Contracts
      → Call (Result (List SignedOrder) × (Books T × Contracts))
  unfolding permanently_delete_order
  pick_orders [] signed_orders b contracts = returns (ok signed_orders, (b, contracts))
  pick_orders ((hash, order) ∷ orders) signed_orders b contracts = elim order.is_removed [
    | false ↦ pick_orders orders (signed_orders ++ order.signed_order ∷ []) b contracts
    | true ↦ elim (ltb permanently_delete_after (s.now b.ticks - order.last_updated)) [
      | false ↦
          pick_orders orders (signed_orders ++ order.signed_order ∷ [])
            (record b { ticks = suc b.ticks }) contracts
      | true ↦ elim (permanently_delete_order order b.txn contracts) [
        | blocks ↦ blocks
        | returns ((failed, contracts'), txn') ↦ elim failed [
          | some e ↦ returns (err e, (record b { txn = txn'; ticks = suc b.ticks }, contracts'))
          | none ↦
              pick_orders orders signed_orders (record b { txn = txn'; ticks = suc b.ticks })
                contracts'
        ]
      ]
    ]
  ]

  -- The validation and its conversion into events, if there are orders to validate.
  unfoldable validate_picked :
      (List SignedOrder → ValidationResults)
      → ℕ
      → List (ℕ × List ContractEvent)
      → Orders
      → Result (List SignedOrder)
      → Books T
      → Option Error × Progress T
  unfolding convert_validation_results_into_order_events
  validate_picked validate timestamp hash_to_events orders (err e) b =
      (some e, record { order_events = []; orders = orders; books = b })
  validate_picked validate timestamp hash_to_events orders (ok []) b =
      (none, record { order_events = []; orders = orders; books = b })
  validate_picked validate timestamp hash_to_events orders (ok (order ∷ signed_orders)) b =
      convert_validation_results_into_order_events s timestamp hash_to_events
        (validate (order ∷ signed_orders)) orders b

  unfoldable pub generate_order_events_if_changed :
      (List SignedOrder → ValidationResults)
      → ℕ
      → List (ℕ × List ContractEvent)
      → Orders
      → Books T
      → Contracts
      → Call ((Option Error × Progress T) × Contracts)
  unfolding pick_orders validate_picked
  generate_order_events_if_changed validate timestamp hash_to_events orders b contracts =
      elim (pick_orders orders [] b contracts) [
        | blocks ↦ blocks
        | returns (picked, (b', contracts')) ↦
            returns (validate_picked validate timestamp hash_to_events orders picked b', contracts')
      ]
