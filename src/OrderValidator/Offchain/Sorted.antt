-- ===== src/OrderValidator/Offchain/Sorted.antt =====
-- `BatchOffchainValidation` (zeroex/ordervalidator/order_validator.go) against the conjunction of
-- its checks.
use x_mesh.Prelude.{
  ℕ, ◌^◌, ◌≡◌, ◌⊎◌, Bool, true, false, not, ◌&&◌, ◌||◌, Option, none, some, List, [], ◌∷◌, map,
  ◌==◌, ltb, length, get_last?, if◌then◌else◌,
}
use x_mesh.Errors.{Result, ok}
use x_mesh.Db.Escape.{Bytes}
use x_mesh.Orders.{SignedOrder}
use x_mesh.ContractAddresses.{ContractAddresses}
use x_mesh.AssetData.{Abi}
use x_mesh.OrderValidator.{RejectedOrderInfo}
use x_mesh.OrderValidator.Offchain.{is_supported_asset_data, Reason, offchain_loop}

-- the elements of a list that pass a test
abbrev pub filter {ℓ} : {A : Type ℓ} → (A → Bool) → List A → List A
filter test [] = []
filter test (x ∷ xs) = let rest = filter test xs in if test x then x ∷ rest else rest

-- The signatures of 0x by their last byte, their type: those of EIP-712 (2) and of `eth_sign` (3) have 66
-- bytes, one of a validator (5) has its address of 20 bytes before the type, and of those of a
-- wallet (4), a presigned one (6) and one of an EIP-1271 wallet (7) no length is asked. The types 0 and 1
-- are illegal and invalid.
abbrev pub has_good_length : ℕ → ℕ → Bool
has_good_length type length =
    ((type == 2 || type == 3) && length == 66)
    || (type == 5 && ltb 20 length)
    || (type == 4 || type == 6 || type == 7)

abbrev has_good_end : Option ℕ → ℕ → Bool
has_good_end none length = false
has_good_end (some type) length = has_good_length type length

abbrev pub has_good_signature : Bytes → Bool
has_good_signature signature = has_good_end (get_last? signature) (length signature)

module _ (abi : Abi) (addresses : ContractAddresses) where
  abbrev supported : Bytes → Bool
  supported asset_data = is_supported_asset_data abi addresses asset_data

  abbrev empty_or_supported : Bytes → Bool
  empty_or_supported asset_data = length asset_data == 0 || supported asset_data

  -- An order is valid off the chain if its expiration time fits into 63 bits, neither amount is 0, its
  -- four asset data are supported, where those of the fees may be empty, and so is its signature, by its type and length.
  unfoldable pub is_offchain_valid : SignedOrder → Bool
  is_offchain_valid order =
      ltb order.expiration_time_seconds (2 ^ 63)
      && (not (order.maker_asset_amount == 0)
          && (not (order.taker_asset_amount == 0)
              && (supported order.maker_asset_data
                  && (supported order.taker_asset_data
                      && (empty_or_supported order.maker_fee_asset_data
                          && (empty_or_supported order.taker_fee_asset_data
                              && has_good_signature order.signature))))))

  -- A check comes to no reason where a test holds, and to a reason where it does not.
  abbrev Decides : Result (Option (Reason abi addresses)) → Bool → Type 0
  Decides r test =
      ((r ≡ ok none) × (test ≡ true))
      ⊎ ((reason : Reason abi addresses) × (r ≡ ok (some reason)) × (test ≡ false))

  module _ (compute_order_hash : SignedOrder → Result ℕ) where
    abbrev sorted_loop :
        List SignedOrder
        → List SignedOrder
        → List RejectedOrderInfo
        → Result (List SignedOrder × List RejectedOrderInfo)
    sorted_loop = offchain_loop abi addresses compute_order_hash

    abbrev orders_of : List RejectedOrderInfo → List SignedOrder
    orders_of infos = map (λ info. info.signed_order) infos
