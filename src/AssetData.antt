-- ===== src/AssetData.antt =====
-- zeroex/asset_data_decoder.go: the names and the parts of asset data. A byte is a number.
use x_mesh.Prelude.{
  ℕ, Bool, true, false, Option, none, some, List, [], ◌∷◌, ltb, length, take, drop,
}
use x_mesh.Errors.{other, Result, ok, err}
use x_mesh.Db.Escape.{Bytes}
use x_mesh.Db.Ldb.{same_bytes}

-- The names of the decoder's table.
pub data AssetName : Type 0 where
  erc20_token erc721_token erc1155_assets static_call check_gas_price multi_asset : AssetName
  erc20_bridge : AssetName

pub record Erc721AssetData : Type 0 where
  pub address : ℕ
  pub token_id : ℕ

pub record Erc1155AssetData : Type 0 where
  pub address : ℕ
  pub ids : List ℕ
  pub values : List ℕ
  pub callback_data : Bytes

pub record Erc20BridgeAssetData : Type 0 where
  pub token_address : ℕ
  pub bridge_address : ℕ
  pub bridge_data : Bytes

pub record StaticCallAssetData : Type 0 where
  pub static_call_target_address : ℕ
  pub static_call_data : Bytes
  pub expected_return_hash_data : Bytes

pub record MultiAssetData : Type 0 where
  pub amounts : List ℕ
  pub nested_asset_data : List Bytes

-- the values that are decoded into
abbrev pub no_token : Erc721AssetData
no_token = record { address = 0; token_id = 0 }

abbrev pub no_assets : Erc1155AssetData
no_assets = record { address = 0; ids = []; values = []; callback_data = [] }

abbrev pub no_call : StaticCallAssetData
no_call = record {
  static_call_target_address = 0;
  static_call_data = [];
  expected_return_hash_data = [];
}

abbrev pub no_nested : MultiAssetData
no_nested = record { amounts = []; nested_asset_data = [] }

abbrev pub no_bridge : Erc20BridgeAssetData
no_bridge = record { token_address = 0; bridge_address = 0; bridge_data = [] }

-- `Inputs.Unpack` of go-ethereum's ABI package, for the inputs of each name. An `Erc20AssetData` is
-- its address and a `CheckGasPriceStaticCallData` its maximal gas price.
pub record Abi : Type 0 where
  pub unpack_erc20 : Bytes → Result ℕ
  pub unpack_erc721 : Bytes → Result Erc721AssetData
  pub unpack_erc1155 : Bytes → Result Erc1155AssetData
  pub unpack_static_call : Bytes → Result StaticCallAssetData
  pub unpack_check_gas_price : Bytes → Result ℕ
  pub unpack_multi : Bytes → Result MultiAssetData
  pub unpack_bridge : Bytes → Result Erc20BridgeAssetData

-- an entry of `idToAssetDataInfo`: the ID, its name, and whether its ABI has inputs
abbrev pub Info : Type 0
Info = Bytes × AssetName × Bool

unfoldable pub id_to_asset_data_info : List Info
id_to_asset_data_info =
    (244 ∷ 114 ∷ 97 ∷ 176 ∷ [], erc20_token, true)
    ∷ (2 ∷ 87 ∷ 23 ∷ 146 ∷ [], erc721_token, true)
    ∷ (167 ∷ 203 ∷ 95 ∷ 183 ∷ [], erc1155_assets, true)
    ∷ (195 ∷ 57 ∷ 209 ∷ 10 ∷ [], static_call, true)
    ∷ (215 ∷ 40 ∷ 245 ∷ 183 ∷ [], check_gas_price, false)
    ∷ (218 ∷ 91 ∷ 22 ∷ 106 ∷ [], check_gas_price, true)
    ∷ (148 ∷ 207 ∷ 205 ∷ 215 ∷ [], multi_asset, true)
    ∷ (220 ∷ 22 ∷ 0 ∷ 243 ∷ [], erc20_bridge, true)
    ∷ []

unfoldable pub find_info : Bytes → List Info → Option (AssetName × Bool)
find_info id [] = none
find_info id ((key, name, has_inputs) ∷ infos) = elim (same_bytes key id) [
  | true ↦ some (name, has_inputs)
  | false ↦ find_info id infos
]

-- What `GetName` and `Decode` begin with: the entry of the first four bytes.
unfoldable pub info_of : Bytes → Result (AssetName × Bool)
unfolding id_to_asset_data_info find_info
info_of asset_data = elim (ltb (length asset_data) 4) [
  | true ↦ err (other "assetData must be at least 4 bytes long")
  | false ↦ elim (find_info (take 4 asset_data) id_to_asset_data_info) [
    | none ↦ err (other "Unrecognized assetData with prefix")
    | some info ↦ ok info
  ]
]

unfoldable pub get_name : Bytes → Result AssetName
get_name asset_data = elim (info_of asset_data) [ err e ↦ err e | ok (name, _) ↦ ok name ]

-- `Decode` into a value that is `zero_value` before, with the ABI's `unpack` of the name.
unfoldable pub decode : {T : Type 0} → (Bytes → Result T) → T → Bytes → Result T
decode unpack zero_value asset_data = elim (info_of asset_data) [
  | err e ↦ err e
  | ok (_, false) ↦ ok zero_value
  | ok (_, true) ↦ unpack (drop 4 asset_data)
]
