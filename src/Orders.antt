-- ===== src/Orders.antt =====
-- zeroex/order.go: orders and the events about them. An address, a hash and the bytes of a
-- uint256 are the numbers that they spell. The cached hash of an order has no part in the model:
-- the hash of an order is a parameter of what uses it.
use x_mesh.Prelude.{ℕ, Bool, List, String}
use x_mesh.Db.Escape.{Bytes}

-- `SignedOrder`, with the fields of the `Order` that it embeds.
pub record SignedOrder : Type 0 where
  pub chain_id : ℕ
  pub exchange_address : ℕ
  pub maker_address : ℕ
  pub maker_asset_data : Bytes
  pub maker_fee_asset_data : Bytes
  pub maker_asset_amount : ℕ
  pub maker_fee : ℕ
  pub taker_address : ℕ
  pub taker_asset_data : Bytes
  pub taker_fee_asset_data : Bytes
  pub taker_asset_amount : ℕ
  pub taker_fee : ℕ
  pub sender_address : ℕ
  pub fee_recipient_address : ℕ
  pub expiration_time_seconds : ℕ
  pub salt : ℕ
  pub signature : Bytes

-- `OrderEventEndState`
pub data EndState : Type 0 where
  es_invalid es_order_added es_order_filled es_order_fully_filled es_order_cancelled : EndState
  es_order_expired es_order_unexpired es_order_became_unfunded : EndState
  es_order_fillability_increased es_stopped_watching : EndState

-- `ContractEvent`; its parameters, which depend on its kind, are the bytes of their JSON.
pub record ContractEvent : Type 0 where
  pub block_hash : ℕ
  pub tx_hash : ℕ
  pub tx_index : ℕ
  pub log_index : ℕ
  pub is_removed : Bool
  pub address : ℕ
  pub kind : String
  pub parameters : Bytes

pub record OrderEvent : Type 0 where
  pub timestamp : ℕ
  pub order_hash : ℕ
  pub signed_order : SignedOrder
  pub end_state : EndState
  pub fillable_taker_asset_amount : ℕ
  pub contract_events : List ContractEvent
