-- ===== src/OrderValidator.antt =====
-- zeroex/ordervalidator/order_validator.go: what the validation of orders comes to.
pub mod Offchain
pub mod Chunks
use x_mesh.Prelude.{ℕ, Bool, true, false, List}
use x_mesh.Orders.{
  SignedOrder, EndState, es_invalid, es_order_expired, es_order_fully_filled, es_order_cancelled,
  es_order_became_unfunded,
}

-- `RejectedOrderStatus`: its values, each of which has a code of its own.
pub data RejectedOrderStatus : Type 0 where
  ro_eth_rpc_request_failed ro_coordinator_request_failed : RejectedOrderStatus
  ro_coordinator_soft_cancelled ro_coordinator_endpoint_not_found : RejectedOrderStatus
  ro_invalid_maker_asset_amount ro_invalid_taker_asset_amount : RejectedOrderStatus
  ro_expired ro_fully_filled ro_cancelled ro_unfunded : RejectedOrderStatus
  ro_invalid_maker_asset_data ro_invalid_maker_fee_asset_data : RejectedOrderStatus
  ro_invalid_taker_asset_data ro_invalid_taker_fee_asset_data : RejectedOrderStatus
  ro_invalid_signature ro_max_expiration_exceeded ro_internal_error : RejectedOrderStatus
  ro_max_order_size_exceeded ro_order_already_stored_and_unfillable : RejectedOrderStatus
  ro_incorrect_chain ro_incorrect_exchange_address : RejectedOrderStatus
  ro_sender_address_not_allowed ro_database_full_of_orders : RejectedOrderStatus

pub data RejectedOrderKind : Type 0 where
  zero_ex_validation mesh_error mesh_validation coordinator_error : RejectedOrderKind

pub record RejectedOrderInfo : Type 0 where
  pub order_hash : ℕ
  pub signed_order : SignedOrder
  pub kind : RejectedOrderKind
  pub status : RejectedOrderStatus

pub record AcceptedOrderInfo : Type 0 where
  pub order_hash : ℕ
  pub signed_order : SignedOrder
  pub fillable_taker_asset_amount : ℕ
  pub is_new : Bool

pub record ValidationResults : Type 0 where
  pub accepted : List AcceptedOrderInfo
  pub rejected : List RejectedOrderInfo

-- `ConvertRejectOrderCodeToOrderEventEndState`
unfoldable pub convert_status : RejectedOrderStatus → EndState × Bool
convert_status ro_expired = (es_order_expired, true)
convert_status ro_fully_filled = (es_order_fully_filled, true)
convert_status ro_cancelled = (es_order_cancelled, true)
convert_status ro_unfunded = (es_order_became_unfunded, true)
convert_status status = (es_invalid, false)
