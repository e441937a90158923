-- ===== src/Tests/Validation.antt =====
-- Orders, and runs of the order validator on them.
use x_mesh.Prelude.{ℕ, zero, suc, ◌≡◌, List, [], ◌∷◌, arith}
use x_mesh.Errors.{Result, ok, err, panic}
use x_mesh.Db.Escape.{Bytes}
use x_mesh.Orders.{SignedOrder}
use x_mesh.ContractAddresses.{ContractAddresses}
use x_mesh.AssetData.{Abi}
use x_mesh.OrderValidator.Chunks.{
  compute_abi_encoded_signed_order_byte_length, compute_optimal_chunk_sizes, signed_order_chunks,
}
use x_mesh.OrderValidator.Chunks.Fit.{Chunked, compute_optimal_chunk_sizes-Chunked}

-- the ID of an ERC20 token, and one byte
abbrev pub some_token : Bytes
some_token = 244 ∷ 114 ∷ 97 ∷ 176 ∷ 7 ∷ []

-- An order with a pre-signed signature.
abbrev pub order_for : ℕ → ℕ → SignedOrder
order_for amount expiration = record {
  chain_id = 1;
  exchange_address = 2;
  maker_address = 3;
  maker_asset_data = some_token;
  maker_fee_asset_data = [];
  maker_asset_amount = amount;
  maker_fee = 0;
  taker_address = 0;
  taker_asset_data = some_token;
  taker_fee_asset_data = [];
  taker_asset_amount = amount;
  taker_fee = 0;
  sender_address = 0;
  fee_recipient_address = 0;
  expiration_time_seconds = expiration;
  salt = 1;
  signature = 6 ∷ [];
}

-- An ABI with addresses of one byte, and with two bytes for each nested asset data.
abbrev first_byte : Bytes → Result ℕ
first_byte [] = err panic
first_byte (b ∷ bs) = ok b

abbrev pub byte_abi : Abi
byte_abi = record {
  unpack_erc20 = first_byte;
  unpack_erc721 = λ encoded. err panic;
  unpack_erc1155 = λ encoded. err panic;
  unpack_static_call = λ encoded. err panic;
  unpack_check_gas_price = first_byte;
  unpack_multi =
      λ encoded. ok (record { amounts = []; nested_asset_data = encoded ∷ encoded ∷ [] });
  unpack_bridge = λ encoded. err panic;
}

abbrev addresses : ContractAddresses
addresses = record {
  erc20_proxy = 11;
  erc721_proxy = 12;
  erc1155_proxy = 13;
  coordinator = 14;
  coordinator_registry = 15;
  dev_utils = 16;
  exchange = 2;
  weth9 = 17;
  zrx_token = 18;
  chai_bridge = 0;
  chai_token = 19;
  maximum_gas_price = 20;
}

-- the second has no amount
abbrev two_orders : List SignedOrder
two_orders = order_for 5 100 ∷ order_for 0 100 ∷ []

abbrev hash_of : SignedOrder → Result ℕ
hash_of order = ok order.expiration_time_seconds

-- encodings of 200 bytes, of which two fit into a request of 800 bytes
abbrev hundreds : ℕ → Bytes
hundreds zero = []
hundreds (suc n) = 0 ∷ hundreds n

abbrev pack : SignedOrder → Result Bytes
pack order = ok (hundreds order.maker_asset_amount)

abbrev three_orders : List SignedOrder
three_orders = order_for 200 1 ∷ order_for 210 2 ∷ order_for 220 3 ∷ []

compute_optimal_chunk_sizes-Chunked_example :
    (sizes : List ℕ) × (compute_optimal_chunk_sizes pack 800 three_orders ≡ ok sizes)
    × Chunked pack 800 (signed_order_chunks sizes three_orders) three_orders
unfolding compute_abi_encoded_signed_order_byte_length
compute_optimal_chunk_sizes-Chunked_example =
    compute_optimal_chunk_sizes-Chunked pack 800 three_orders
      (omega arith, (omega arith, (omega arith, tt)))
