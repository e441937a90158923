-- ===== src/OrderWatch/Contracts.antt =====
-- The contracts that the event decoder knows: `addAssetDataAddressToEventDecoder` and
-- `removeAssetDataAddressFromEventDecoder` of zeroex/orderwatch/order_watcher.go, with the sets of known
-- contracts of decoder/event_decoder.go.
pub mod Counts
pub mod Depth
pub mod Ends
use x_mesh.Prelude.{
  ℕ, zero, suc, ◌+◌, ◌-◌, ◌%◌, ◌^◌, Bool, true, false, Option, none, some, List, [], ◌∷◌, ◌==◌,
  length, if◌then◌else◌,
}
use x_mesh.Errors.{Error, other, out_of_fuel, Result, ok, err}
use x_mesh.Db.Escape.{Bytes}
use x_mesh.AssetData.{
  Abi, AssetName, erc20_token, erc721_token, erc1155_assets, static_call, check_gas_price,
  multi_asset, erc20_bridge, no_token, no_assets, no_call, no_nested, Erc721AssetData,
  Erc1155AssetData, StaticCallAssetData, MultiAssetData, get_name, decode,
}

-- A map from addresses as a function; a set of addresses is a map to Booleans.
unfoldable pub set_at : {A : Type 0} → ℕ → A → (ℕ → A) → ℕ → A
set_at key value f address = if key == address then value else f address

-- The known contracts of the decoder, and `contractAddressToSeenCount`, whose counts are 64 bits wide.
pub record Contracts : Type 0 where
  pub known_erc20 : ℕ → Bool
  pub known_erc721 : ℕ → Bool
  pub known_erc1155 : ℕ → Bool
  pub seen_count : ℕ → ℕ

-- the standard of a token
pub data Standard : Type 0 where
  erc20 erc721 erc1155 : Standard

-- `AddKnownERC20` and its kin, and `RemoveKnownERC20` and its kin
unfoldable pub set_known : Standard → ℕ → Bool → Contracts → Contracts
unfolding set_at
set_known erc20 address known c = record c { known_erc20 = set_at address known c.known_erc20 }
set_known erc721 address known c = record c { known_erc721 = set_at address known c.known_erc721 }
set_known erc1155 address known c = record c {
  known_erc1155 = set_at address known c.known_erc1155;
}

unfoldable pub add_contract : Standard → ℕ → Contracts → Contracts
unfolding set_known set_at
add_contract standard address c =
    let c' = set_known standard address true c in
    record c' { seen_count = set_at address ((c'.seen_count address + 1) % 2 ^ 64) c'.seen_count }

-- A count of 0 wraps around.
unfoldable pub remove_contract : Standard → ℕ → Contracts → Contracts
unfolding set_known set_at
remove_contract standard address c =
    let count = (c.seen_count address + (2 ^ 64 - 1)) % 2 ^ 64 in
    let c' = record c { seen_count = set_at address count c.seen_count } in
    if count == 0 then set_known standard address false c' else c'

-- What the code does with the asset data of an order: with each token's contract, and with the list of
-- nested asset data.
pub data Parts : Type 0 where
  contract : Standard → ℕ → Parts
  nothing : Parts
  nested : List Bytes → Parts

-- an error is returned, and a value is used
abbrev pub map_ok : {A : Type 0} → (A → Parts) → Result A → Result Parts
map_ok f (err e) = err e
map_ok f (ok value) = ok (f value)

module _ (abi : Abi) where
  -- The switch over the name, which both functions begin with.
  unfoldable pub parts_named : AssetName → Bytes → Result Parts
  parts_named erc20_token asset_data =
      map_ok (contract erc20) (decode abi.unpack_erc20 0 asset_data)
  parts_named erc721_token asset_data =
      map_ok (λ token. contract erc721 token.address) (decode abi.unpack_erc721 no_token asset_data)
  parts_named erc1155_assets asset_data =
      map_ok (λ assets. contract erc1155 assets.address)
        (decode abi.unpack_erc1155 no_assets asset_data)
  parts_named static_call asset_data =
      map_ok (λ call. nothing) (decode abi.unpack_static_call no_call asset_data)
  parts_named multi_asset asset_data =
      map_ok (λ multi. nested multi.nested_asset_data)
        (decode abi.unpack_multi no_nested asset_data)
  parts_named check_gas_price asset_data = err (other "unrecognized assetData type name found")
  parts_named erc20_bridge asset_data = err (other "unrecognized assetData type name found")

  unfoldable pub parts_of : Bytes → Result Parts
  unfolding parts_named
  parts_of asset_data = elim (get_name asset_data) [
    | err e ↦ err e
    | ok name ↦ parts_named name asset_data
  ]

  abbrev pub Action : Type 0
  Action = Standard → ℕ → Contracts → Contracts

  abbrev pub and_then :
      Option Error × Contracts → (Contracts → Option Error × Contracts) → Option Error × Contracts
  and_then (some e, c) next = (some e, c)
  and_then (none, c) next = next c

  -- the loop over nested asset data, which an error ends
  abbrev pub for_each :
      (Bytes → Contracts → Option Error × Contracts)
      → List Bytes
      → Contracts
      → Option Error × Contracts
  for_each body [] c = (none, c)
  for_each body (asset_data ∷ rest) c = and_then (body asset_data c) (for_each body rest)

  abbrev pub walk_parts :
      Action
      → (Bytes → Contracts → Option Error × Contracts)
      → Result Parts
      → Contracts
      → Option Error × Contracts
  walk_parts act body (err e) c = (some e, c)
  walk_parts act body (ok (contract standard address)) c = (none, act standard address c)
  walk_parts act body (ok nothing) c = (none, c)
  walk_parts act body (ok (nested list)) c = for_each body list c

  -- What the two functions share. Asset data may nest; each level takes one of the fuel.
  unfoldable pub walk : Action → ℕ → Bytes → Contracts → Option Error × Contracts
  walk act zero asset_data c = (some out_of_fuel, c)
  walk act (suc fuel) asset_data c = walk_parts act (walk act fuel) (parts_of asset_data) c

  -- Nested asset data is shorter than what it stands in, so that this fuel is enough.
  unfoldable pub add_asset_data : Bytes → Contracts → Option Error × Contracts
  unfolding walk add_contract
  add_asset_data asset_data = walk add_contract (suc (length asset_data)) asset_data

  unfoldable pub remove_asset_data : Bytes → Contracts → Option Error × Contracts
  unfolding walk remove_contract
  remove_asset_data asset_data = walk remove_contract (suc (length asset_data)) asset_data
