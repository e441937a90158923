-- ===== src/OrderValidator/Offchain.antt =====
-- `BatchOffchainValidation` of zeroex/ordervalidator/order_validator.go: the checks of an order that
-- need no request.
pub mod Sorted
use x_mesh.Prelude.{
  ℕ, ◌^◌, Bool, true, false, not, ◌&&◌, ◌||◌, Option, none, some, List, [], ◌∷◌, ◌++◌, ◌==◌, ltb,
  length, get_last?, if◌then◌else◌,
}
use x_mesh.Errors.{panic, Result, ok, err}
use x_mesh.Db.Escape.{Bytes}
use x_mesh.Orders.{SignedOrder}
use x_mesh.ContractAddresses.{ContractAddresses, null_address}
use x_mesh.AssetData.{
  AssetName, erc20_token, erc721_token, erc1155_assets, static_call, check_gas_price, multi_asset,
  erc20_bridge, Abi, no_token, no_assets, no_call, no_nested, no_bridge, Erc721AssetData,
  Erc1155AssetData, Erc20BridgeAssetData, StaticCallAssetData, MultiAssetData, get_name, decode,
}
use x_mesh.OrderValidator.{
  RejectedOrderInfo, RejectedOrderKind, RejectedOrderStatus, zero_ex_validation, mesh_validation,
  ro_invalid_maker_asset_amount, ro_invalid_taker_asset_amount, ro_invalid_maker_asset_data,
  ro_invalid_maker_fee_asset_data, ro_invalid_taker_asset_data, ro_invalid_taker_fee_asset_data,
  ro_invalid_signature, ro_max_expiration_exceeded,
}

-- The switch of `isSupportedSignature` over the type and the length of a signature.
unfoldable pub is_supported_type : ℕ → ℕ → Bool
is_supported_type type length =
    if type == 0 || type == 1
    then false
    else if type == 2 || type == 3
    then length == 66
    else if type == 5
    then not (ltb length 21)
    else type == 6 || type == 4 || type == 7

-- `isSupportedSignature`: the type is the last byte, and without one the code panics.
unfoldable pub is_supported_signature : Bytes → Result Bool
unfolding is_supported_type
is_supported_signature signature = elim (get_last? signature) [
  | none ↦ err panic
  | some type ↦ ok (is_supported_type type (length signature))
]

-- whether a value was decoded
abbrev is_ok {ℓ} : {A : Type ℓ} → Result A → Bool
is_ok (ok value) = true
is_ok (err e) = false

module _ (abi : Abi) (contract_addresses : ContractAddresses) where
  unfoldable is_known_gas_price_call : StaticCallAssetData → Bool
  unfolding get_name decode
  is_known_gas_price_call call = elim (get_name call.static_call_data) [
    | ok check_gas_price ↦
        is_ok (decode abi.unpack_check_gas_price 0 call.static_call_data)
        && not (
            contract_addresses.maximum_gas_price == null_address
            || not (call.static_call_target_address == contract_addresses.maximum_gas_price))
    | _ ↦ false
  ]

  unfoldable is_chai_bridge : Erc20BridgeAssetData → Bool
  is_chai_bridge bridge = not (
      contract_addresses.chai_bridge == null_address
      || not (bridge.bridge_address == contract_addresses.chai_bridge))

  -- `isSupportedAssetData`, behind the name
  supports : Bytes → AssetName → Bool
  unfolding decode is_known_gas_price_call is_chai_bridge
  supports asset_data erc20_token = is_ok (decode abi.unpack_erc20 null_address asset_data)
  supports asset_data erc721_token = is_ok (decode abi.unpack_erc721 no_token asset_data)
  supports asset_data erc1155_assets = is_ok (decode abi.unpack_erc1155 no_assets asset_data)
  supports asset_data static_call = elim (decode abi.unpack_static_call no_call asset_data) [
    | err e ↦ false
    | ok call ↦ is_known_gas_price_call call
  ]
  supports asset_data multi_asset = is_ok (decode abi.unpack_multi no_nested asset_data)
  supports asset_data erc20_bridge = elim (decode abi.unpack_bridge no_bridge asset_data) [
    | err e ↦ false
    | ok bridge ↦ is_chai_bridge bridge
  ]
  supports asset_data check_gas_price = false

  unfoldable pub is_supported_asset_data : Bytes → Bool
  unfolding supports get_name
  is_supported_asset_data asset_data = elim (get_name asset_data) [
    | err e ↦ false
    | ok name ↦ supports asset_data name
  ]

  -- the reason of a rejection
  abbrev pub Reason : Type 0
  Reason = RejectedOrderKind × RejectedOrderStatus

  abbrev pub reject : RejectedOrderStatus → Result (Option Reason)
  reject status = ok (some (zero_ex_validation, status))

  abbrev pub check_signature : Result Bool → Result (Option Reason)
  check_signature (err e) = err e
  check_signature (ok true) = ok none
  check_signature (ok false) = reject ro_invalid_signature

  -- The body of the loop: the first check that fails. An expiration time is not negative, so that it
  -- is an int64 if it is below 2^63.
  unfoldable pub first_problem : SignedOrder → Result (Option Reason)
  unfolding is_supported_asset_data is_supported_signature
  first_problem order =
      if not (ltb order.expiration_time_seconds (2 ^ 63))
      then ok (some (mesh_validation, ro_max_expiration_exceeded))
      else if order.maker_asset_amount == 0
      then reject ro_invalid_maker_asset_amount
      else if order.taker_asset_amount == 0
      then reject ro_invalid_taker_asset_amount
      else if not (is_supported_asset_data order.maker_asset_data)
      then reject ro_invalid_maker_asset_data
      else if not (is_supported_asset_data order.taker_asset_data)
      then reject ro_invalid_taker_asset_data
      else if not (length order.maker_fee_asset_data == 0)
          && not (is_supported_asset_data order.maker_fee_asset_data)
      then reject ro_invalid_maker_fee_asset_data
      else if not (length order.taker_fee_asset_data == 0)
          && not (is_supported_asset_data order.taker_fee_asset_data)
      then reject ro_invalid_taker_fee_asset_data
      else check_signature (is_supported_signature order.signature)

  module _ (compute_order_hash : SignedOrder → Result ℕ) where
    -- the hash that comes beside an error is zero
    abbrev pub hash_or_zero : Result ℕ → ℕ
    hash_or_zero (ok hash) = hash
    hash_or_zero (err e) = 0

    abbrev pub rejection : SignedOrder → Reason → RejectedOrderInfo
    rejection order (kind, status) = record {
      order_hash = hash_or_zero (compute_order_hash order);
      signed_order = order;
      kind = kind;
      status = status;
    }

    unfoldable pub offchain_loop :
        List SignedOrder
        → List SignedOrder
        → List RejectedOrderInfo
        → Result (List SignedOrder × List RejectedOrderInfo)
    offchain_loop [] valid rejected = ok (valid, rejected)
    offchain_loop (order ∷ orders) valid rejected = elim (first_problem order) [
      | err e ↦ err e
      | ok none ↦ offchain_loop orders (valid ++ order ∷ []) rejected
      | ok (some reason) ↦ offchain_loop orders valid (rejected ++ rejection order reason ∷ [])
    ]

    unfoldable pub batch_offchain_validation :
        List SignedOrder → Result (List SignedOrder × List RejectedOrderInfo)
    unfolding offchain_loop
    batch_offchain_validation orders = offchain_loop orders [] []
