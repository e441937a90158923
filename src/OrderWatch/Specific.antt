-- ===== src/OrderWatch/Specific.antt =====
-- `meshSpecificOrderValidation` of zeroex/orderwatch/order_watcher.go: the checks of new orders that Mesh
-- makes besides those of the 0x protocol.
pub mod Judged
pub mod Sorted
use x_mesh.Prelude.{
  ℕ, Bool, true, false, not, List, [], ◌∷◌, ◌++◌, ◌==◌, ltb, length, if◌then◌else◌,
}
use x_mesh.Errors.{Error, not_found, Result, ok, err}
use x_mesh.Db.Escape.{Bytes}
use x_mesh.Orders.{SignedOrder}
use x_mesh.ContractAddresses.{null_address}
use x_mesh.OrderValidator.{
  AcceptedOrderInfo, RejectedOrderInfo, ValidationResults, RejectedOrderKind, RejectedOrderStatus,
  mesh_error, mesh_validation, ro_internal_error, ro_max_expiration_exceeded,
  ro_sender_address_not_allowed, ro_incorrect_chain, ro_incorrect_exchange_address,
  ro_max_order_size_exceeded, ro_order_already_stored_and_unfillable,
}
use x_mesh.OrderWatch.{Order}

abbrev pub max_order_size_in_bytes : ℕ
max_order_size_in_bytes = 16000

-- `_, ok := err.(db.NotFoundError)`
abbrev pub is_not_found : Error → Bool
is_not_found (not_found id) = true
is_not_found e = false

-- What the body of the loop comes to for one order.
pub data Verdict : Type 0 where
  rejects : RejectedOrderKind → RejectedOrderStatus → Verdict
  accepts : ℕ → Verdict
  passes : Verdict
  fails : Error → Verdict

-- `validateOrderSize`: the errors are that of `json.Marshal` and `constants.ErrMaxOrderSize`, of which
-- each is rejected in its own way.
unfoldable pub size_verdict : Result Bytes → Verdict → Verdict
size_verdict (err e) next = rejects mesh_error ro_internal_error
size_verdict (ok encoded) next =
    if ltb max_order_size_in_bytes (length encoded)
    then rejects mesh_validation ro_max_order_size_exceeded
    else next

-- behind the search of the database
unfoldable pub stored_verdict : Result Order → Verdict
stored_verdict (err e) = if is_not_found e then passes else fails e
stored_verdict (ok order) =
    if order.is_removed
    then rejects mesh_validation ro_order_already_stored_and_unfillable
    else accepts order.fillable_taker_asset_amount

-- `find_stored` is `FindByID` on the orders. `marshal` is `json.Marshal` of an order.
module _ (compute_order_hash : SignedOrder → Result ℕ) (marshal : SignedOrder → Result Bytes)
    (find_stored : ℕ → Result Order) (max_expiration_time chain_id exchange : ℕ) where
  unfoldable pub known_verdict : SignedOrder → ℕ → Verdict
  unfolding size_verdict stored_verdict
  known_verdict order hash =
      if ltb max_expiration_time order.expiration_time_seconds
      then rejects mesh_validation ro_max_expiration_exceeded
      else if not (order.sender_address == null_address)
      then rejects mesh_validation ro_sender_address_not_allowed
      else if not (order.chain_id == chain_id)
      then rejects mesh_validation ro_incorrect_chain
      else if not (order.exchange_address == exchange)
      then rejects mesh_validation ro_incorrect_exchange_address
      else size_verdict (marshal order) (stored_verdict (find_stored hash))

  -- the hash, or zero beside an error
  abbrev pub hash_of : Result ℕ → ℕ
  hash_of (ok hash) = hash
  hash_of (err e) = 0

  unfoldable pub verdict : SignedOrder → Verdict
  unfolding known_verdict
  verdict order = elim (compute_order_hash order) [
    | err e ↦ rejects mesh_error ro_internal_error
    | ok hash ↦ known_verdict order hash
  ]

  -- the results so far, and the orders that are to be validated further
  abbrev pub State : Type 0
  State = ValidationResults × List SignedOrder

  abbrev pub file_order : Verdict → SignedOrder → State → (State → Result State) → Result State
  file_order (fails e) order state rest = err e
  file_order passes order (results, valid) rest = rest (results, valid ++ order ∷ [])
  file_order (rejects kind status) order (results, valid) rest = rest (
    record {
      accepted = results.accepted;
      rejected =
          results.rejected
          ++ record {
            order_hash = hash_of (compute_order_hash order);
            signed_order = order;
            kind = kind;
            status = status;
          }
            ∷ [];
    },
    valid,
  )
  file_order (accepts amount) order (results, valid) rest = rest (
    record {
      accepted =
          results.accepted
          ++ record {
            order_hash = hash_of (compute_order_hash order);
            signed_order = order;
            fillable_taker_asset_amount = amount;
            is_new = false;
          }
            ∷ [];
      rejected = results.rejected;
    },
    valid,
  )

  unfoldable pub specific_loop : List SignedOrder → State → Result State
  unfolding verdict
  specific_loop [] state = ok state
  specific_loop (order ∷ orders) state =
      file_order (verdict order) order state (specific_loop orders)

  unfoldable pub mesh_specific_order_validation : List SignedOrder → Result State
  unfolding specific_loop
  mesh_specific_order_validation orders =
      specific_loop orders (record { accepted = []; rejected = [] }, [])
