-- ===== src/OrderWatch/Results.antt =====
-- `convertValidationResultsIntoOrderEvents` of zeroex/orderwatch/order_watcher.go.
pub mod Amounts
pub mod Errors
use x_mesh.Prelude.{
  ℕ, Bool, true, false, not, ◌&&◌, Option, none, some, List, [], ◌∷◌, ◌++◌, String, ◌==◌, ltb,
  if◌then◌else◌,
}
use x_mesh.Errors.{Error, other, Result, ok, err}
use x_mesh.Orders.{
  SignedOrder, EndState, OrderEvent, ContractEvent, es_order_added, es_order_filled,
  es_order_unexpired, es_order_fillability_increased,
}
use x_mesh.OrderValidator.{
  AcceptedOrderInfo, RejectedOrderInfo, ValidationResults, RejectedOrderKind, mesh_error,
  zero_ex_validation, mesh_validation, coordinator_error, RejectedOrderStatus, convert_status,
}
use x_mesh.OrderWatch.Known.{Orders, find_order, set_order, events_of}
use x_mesh.OrderWatch.{
  Order, Books, Setting, expiration_of, update_order_db_entry, rewatch_order, unwatch_order,
}

-- An order after a case of the loop, the events of the case, and the rest of the state.
abbrev pub Handled : Type 0 → Type 0
Handled T = List OrderEvent × (Order × Books T)

-- The state of the loops: the events so far, the orders of the map and the rest.
pub record Progress (T : Type 0) : Type 0 where
  pub order_events : List OrderEvent
  pub orders : Orders
  pub books : Books T

abbrev pub record_handled : {T : Type 0} → ℕ → Handled T → Progress T → Progress T
record_handled hash (events, (order, b)) p = record {
  order_events = p.order_events ++ events;
  orders = set_order hash order p.orders;
  books = b;
}

-- The loop goes on if there was no error.
abbrev pub continue_with :
    {T : Type 0}
    → Option Error × Progress T
    → (Progress T → Option Error × Progress T)
    → Option Error × Progress T
continue_with (some e, p) rest = (some e, p)
continue_with (none, p) rest = rest p

module _ {T Store : Type 0} (s : Setting T Store) (timestamp : ℕ) where
  abbrev pub event : ℕ → SignedOrder → ℕ → EndState → List ContractEvent → OrderEvent
  event hash signed amount end_state events = record {
    timestamp = timestamp;
    order_hash = hash;
    signed_order = signed;
    end_state = end_state;
    fillable_taker_asset_amount = amount;
    contract_events = events;
  }

  -- order.IsRemoved && oldFillableAmount.Cmp(big.NewInt(0)) != 0 && validationBlockTimestamp.Before(expiration)
  unfoldable pub became_unexpired : Order → Bool
  unfolding expiration_of
  became_unexpired order =
      order.is_removed
      && (not (order.fillable_taker_asset_amount == 0)
          && ltb timestamp (expiration_of order.signed_order))

  -- the event of an order that is watched again
  abbrev pub unexpired_event : Order → OrderEvent
  unexpired_event order =
      event order.hash order.signed_order order.fillable_taker_asset_amount es_order_unexpired []

  -- The amount is what it was; the test says whether the order is no longer expired.
  unfoldable pub same_amount : Bool → Order → Books T → Handled T
  unfolding rewatch_order
  same_amount true order b =
      let (order', b') = rewatch_order s order order.fillable_taker_asset_amount b in
      (unexpired_event order' ∷ [], (order', b'))
  same_amount false order b = ([], (order, b))

  -- The amount changed from one that is not 0; the end state says which way.
  unfoldable pub other_amount :
      Bool → EndState → ℕ → List ContractEvent → ℕ → Order → Books T → Handled T
  unfolding rewatch_order update_order_db_entry
  other_amount true end_state hash events amount order b =
      let (order', b') = rewatch_order s order amount b in
      (
        unexpired_event order' ∷ event hash order.signed_order amount end_state events ∷ [],
        (order', b'),
      )
  other_amount false end_state hash events amount order b =
      let (order', b') =
        update_order_db_entry s (record order { fillable_taker_asset_amount = amount }) b in
      (event hash order.signed_order amount end_state events ∷ [], (order', b'))

  -- The cases of the loop over the accepted orders: whether the old amount is 0, whether it is the new
  -- one, and whether it is more.
  unfoldable pub accept_case :
      Bool → Bool → Bool → List ContractEvent → AcceptedOrderInfo → Order → Books T → Handled T
  unfolding rewatch_order same_amount other_amount became_unexpired
  accept_case true same more events info order b =
      let (order', b') = rewatch_order s order info.fillable_taker_asset_amount b in
      (
        event info.order_hash order'.signed_order info.fillable_taker_asset_amount es_order_added
              events
            ∷ [],
        (order', b'),
      )
  accept_case false true more events info order b = same_amount (became_unexpired order) order b
  accept_case false false true events info order b =
      other_amount (became_unexpired order) es_order_filled info.order_hash events
        info.fillable_taker_asset_amount order b
  accept_case false false false events info order b =
      other_amount (became_unexpired order) es_order_fillability_increased info.order_hash events
        info.fillable_taker_asset_amount order b

  -- the body of the loop over the accepted orders, for an order that is known
  unfoldable pub accept_order :
      List (ℕ × List ContractEvent) → AcceptedOrderInfo → Order → Books T → Handled T
  unfolding accept_case
  accept_order hash_to_events info order =
      accept_case (order.fillable_taker_asset_amount == 0)
        (order.fillable_taker_asset_amount == info.fillable_taker_asset_amount)
        (ltb info.fillable_taker_asset_amount order.fillable_taker_asset_amount)
        (events_of order.hash hash_to_events) info order

  unfoldable pub accept_found :
      Option Order → List (ℕ × List ContractEvent) → AcceptedOrderInfo → Progress T → Progress T
  unfolding accept_order
  accept_found none hash_to_events info p = p
  accept_found (some order) hash_to_events info p =
      record_handled info.order_hash (accept_order hash_to_events info order p.books) p

  unfoldable pub accept_one :
      List (ℕ × List ContractEvent) → AcceptedOrderInfo → Progress T → Progress T
  unfolding accept_found
  accept_one hash_to_events info p =
      accept_found (find_order info.order_hash p.orders) hash_to_events info p

  unfoldable pub accept_all :
      List (ℕ × List ContractEvent) → List AcceptedOrderInfo → Progress T → Progress T
  unfolding accept_one
  accept_all hash_to_events [] p = p
  accept_all hash_to_events (info ∷ infos) p =
      accept_all hash_to_events infos (accept_one hash_to_events info p)

  -- An order that is known and has an amount, behind the conversion of the status.
  unfoldable pub reject_known :
      EndState × Bool
      → List ContractEvent
      → RejectedOrderInfo
      → Order
      → Progress T
      → Option Error × Progress T
  unfolding unwatch_order
  reject_known (end_state, false) events info order p = (
    some (other "no OrderEventEndState corresponding to RejectedOrderStatus"),
    record_handled info.order_hash ([], unwatch_order s order 0 p.books) p,
  )
  reject_known (end_state, true) events info order p = (
    none,
    record_handled info.order_hash
        (
          event info.order_hash info.signed_order 0 end_state events ∷ [],
          unwatch_order s order 0 p.books,
        )
        p,
  )

  -- An order that is known; the test says whether its amount is 0.
  unfoldable pub reject_order :
      Bool
      → List (ℕ × List ContractEvent)
      → RejectedOrderInfo
      → Order
      → Progress T
      → Option Error × Progress T
  unfolding reject_known
  reject_order true hash_to_events info order p = (none, p)
  reject_order false hash_to_events info order p =
      reject_known (convert_status info.status) (events_of order.hash hash_to_events) info order p

  unfoldable pub reject_found :
      Option Order
      → List (ℕ × List ContractEvent)
      → RejectedOrderInfo
      → Progress T
      → Option Error × Progress T
  unfolding reject_order
  reject_found none hash_to_events info p = (none, p)
  reject_found (some order) hash_to_events info p =
      reject_order (order.fillable_taker_asset_amount == 0) hash_to_events info order p

  unfoldable pub reject_kind :
      RejectedOrderKind
      → List (ℕ × List ContractEvent)
      → RejectedOrderInfo
      → Progress T
      → Option Error × Progress T
  unfolding reject_found
  reject_kind mesh_error hash_to_events info p = (none, p)
  reject_kind zero_ex_validation hash_to_events info p =
      reject_found (find_order info.order_hash p.orders) hash_to_events info p
  reject_kind mesh_validation hash_to_events info p =
      (some (other "unknown rejectedOrderInfo.Kind"), p)
  reject_kind coordinator_error hash_to_events info p =
      (some (other "unknown rejectedOrderInfo.Kind"), p)

  -- The body of the loop over the rejected orders.
  unfoldable pub reject_one :
      List (ℕ × List ContractEvent) → RejectedOrderInfo → Progress T → Option Error × Progress T
  unfolding reject_kind
  reject_one hash_to_events info p = reject_kind info.kind hash_to_events info p

  unfoldable pub reject_all :
      List (ℕ × List ContractEvent)
      → List RejectedOrderInfo
      → Progress T
      → Option Error × Progress T
  unfolding reject_one
  reject_all hash_to_events [] p = (none, p)
  reject_all hash_to_events (info ∷ infos) p =
      continue_with (reject_one hash_to_events info p) (reject_all hash_to_events infos)

  -- With an error the code returns no events, but what it changed stays changed.
  unfoldable pub convert_validation_results_into_order_events :
      List (ℕ × List ContractEvent)
      → ValidationResults
      → Orders
      → Books T
      → Option Error × Progress T
  unfolding accept_all reject_all
  convert_validation_results_into_order_events hash_to_events results orders b =
      reject_all hash_to_events results.rejected (
        accept_all hash_to_events results.accepted
          (record { order_events = []; orders = orders; books = b }))
