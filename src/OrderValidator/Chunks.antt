-- ===== src/OrderValidator/Chunks.antt =====
-- The batches of `BatchValidate`: `computeOptimalChunkSizes` of order_validator.go and the loop over
-- its sizes.
pub mod Fit
use x_mesh.Prelude.{
  ℕ, zero, suc, ◌+◌, ◌-◌, ◌*◌, Bool, true, false, List, [], ◌∷◌, ◌++◌, ◌==◌, ltb, length, take,
  drop, if◌then◌else◌,
}
use x_mesh.Errors.{panic, Result, ok, err}
use x_mesh.Db.Escape.{Bytes}
use x_mesh.Orders.{SignedOrder}

abbrev pub empty_get_order_relevant_states_call_data_byte_length : ℕ
empty_get_order_relevant_states_call_data_byte_length = 268

abbrev pub json_rpc_payload_byte_length : ℕ
json_rpc_payload_byte_length = 444

-- A hexutil.Bytes as JSON has two digits for each byte, "0x" and two quotes. `pack` is the ABI
-- encoding of the call for one order: the code relies on it that this is not shorter than the call
-- without an order, which has 132 bytes. The caller ignores an error, and takes the 0.
unfoldable pub compute_abi_encoded_signed_order_byte_length :
    (SignedOrder → Result Bytes) → SignedOrder → ℕ
compute_abi_encoded_signed_order_byte_length pack order = elim (pack order) [
  | err e ↦ 0
  | ok encoded ↦ 2 * length encoded + 4 - empty_get_order_relevant_states_call_data_byte_length
]

module _ (pack : SignedOrder → Result Bytes) (max_request_content_length : ℕ) where
  -- the loop, with `payloadLength`, `nextChunkSize` and `chunkSizes`
  unfoldable pub chunk_loop : List SignedOrder → ℕ → ℕ → List ℕ → Result (List ℕ)
  chunk_loop [] payload_length next_chunk_size chunk_sizes =
      ok (if next_chunk_size == 0 then chunk_sizes else chunk_sizes ++ next_chunk_size ∷ [])
  chunk_loop (order ∷ orders) payload_length next_chunk_size chunk_sizes =
      let encoded = compute_abi_encoded_signed_order_byte_length pack order in
      elim (ltb (payload_length + encoded) max_request_content_length) [
        | true ↦ chunk_loop orders (payload_length + encoded) (suc next_chunk_size) chunk_sizes
        | false ↦ elim (next_chunk_size == 0) [
          | true ↦ err panic
          | false ↦
              chunk_loop orders (json_rpc_payload_byte_length + encoded) 1
                (chunk_sizes ++ next_chunk_size ∷ [])
        ]
      ]

  unfoldable pub compute_optimal_chunk_sizes : List SignedOrder → Result (List ℕ)
  unfolding chunk_loop
  compute_optimal_chunk_sizes orders = chunk_loop orders json_rpc_payload_byte_length 0 []

-- `signedOrderChunks` of BatchValidate: `signedOrders[:chunkSize]` for each size in turn
unfoldable pub signed_order_chunks : List ℕ → List SignedOrder → List (List SignedOrder)
signed_order_chunks [] orders = []
signed_order_chunks (size ∷ sizes) orders =
    take size orders ∷ signed_order_chunks sizes (drop size orders)
