-- ===== src/OrderWatch/Contracts/Ends.antt =====
-- The recursion over nested asset data (zeroex/orderwatch/order_watcher.go) ends.
use x_mesh.Prelude.{
  ℕ, zero, suc, ◌<◌, ◌≡◌, ◌≢◌, refl, ap, sym, ◌∙◌, Bool, true, false, Option, none, some, List, [],
  ◌∷◌, length, drop, All, arith,
}
use x_mesh.Errors.{Error, other, out_of_fuel, Result, ok, err}
use x_mesh.Db.Escape.{Bytes}
use x_mesh.AssetData.{
  Abi, AssetName, erc20_token, erc721_token, erc1155_assets, static_call, check_gas_price,
  multi_asset, erc20_bridge, no_token, no_assets, no_call, no_nested, info_of, get_name, decode,
}
use x_mesh.OrderWatch.Contracts.{
  erc20, erc721, erc1155, map_ok, Contracts, Parts, contract, nothing, nested, parts_named,
  parts_of, Action, and_then, for_each, walk_parts, walk, add_contract, add_asset_data,
}
use x_mesh.OrderWatch.Contracts.Depth.{
  NestedShorter, FineParts, parts_of-shorter, add_asset_data-fuel,
}

abbrev is_out_of_fuel : Error → Bool
is_out_of_fuel out_of_fuel = true
is_out_of_fuel e = false

abbrev ran_out : Option Error → Bool
ran_out none = false
ran_out (some e) = is_out_of_fuel e

abbrev pub fails_for_fuel : {A : Type 0} → Result A → Bool
fails_for_fuel (ok value) = false
fails_for_fuel (err e) = is_out_of_fuel e

-- The errors of the ABI's decoder are its own: none is the one that the model has for its fuel.
pub record OwnErrors (abi : Abi) : Type 0 where
  pub erc20_own : (encoded : Bytes) → fails_for_fuel (abi.unpack_erc20 encoded) ≡ false
  pub erc721_own : (encoded : Bytes) → fails_for_fuel (abi.unpack_erc721 encoded) ≡ false
  pub erc1155_own : (encoded : Bytes) → fails_for_fuel (abi.unpack_erc1155 encoded) ≡ false
  pub static_call_own : (encoded : Bytes) → fails_for_fuel (abi.unpack_static_call encoded) ≡ false
  pub multi_own : (encoded : Bytes) → fails_for_fuel (abi.unpack_multi encoded) ≡ false

-- Each step that may fail fails with an error of its own.
info_of-own : (asset_data : Bytes) → fails_for_fuel (info_of asset_data) ≡ false
unfolding info_of
info_of-own asset_data = tests _ _
  where
    tests :
        (short : Bool) (found : Option (AssetName × Bool))
        → fails_for_fuel (elim short [
          | true ↦ err (other "assetData must be at least 4 bytes long")
          | false ↦ elim found [
            | none ↦ err (other "Unrecognized assetData with prefix")
            | some info ↦ ok info
          ]
        ])
          ≡ false
    tests true found = refl
    tests false none = refl
    tests false (some info) = refl

get_name-own : (asset_data : Bytes) → fails_for_fuel (get_name asset_data) ≡ false
unfolding get_name
get_name-own asset_data = by_info (info_of asset_data) (info_of-own asset_data)
  where
    by_info :
        (info : Result (AssetName × Bool))
        → fails_for_fuel info ≡ false
        → fails_for_fuel {A = AssetName} (elim info [ err e ↦ err e | ok (name, _) ↦ ok name ])
          ≡ false
    by_info (err e) h = h
    by_info (ok (name, _)) h = refl

decode-own :
    {A : Type 0} (unpack : Bytes → Result A) (zero_value : A) (asset_data : Bytes)
    → ((encoded : Bytes) → fails_for_fuel (unpack encoded) ≡ false)
    → fails_for_fuel (decode unpack zero_value asset_data) ≡ false
unfolding decode
decode-own {A} unpack zero_value asset_data own =
    by_info unpack zero_value asset_data own (info_of asset_data) (info_of-own asset_data)
  where
    by_info :
        (unpack : Bytes → Result A) (zero_value : A) (asset_data : Bytes)
        → ((encoded : Bytes) → fails_for_fuel (unpack encoded) ≡ false)
        → (info : Result (AssetName × Bool)) → fails_for_fuel info ≡ false
        → fails_for_fuel (elim info [
          | err e ↦ err e
          | ok (_, false) ↦ ok zero_value
          | ok (_, true) ↦ unpack (drop 4 asset_data)
        ])
          ≡ false
    by_info unpack zero_value asset_data own (err e) h = h
    by_info unpack zero_value asset_data own (ok (name, false)) h = refl
    by_info unpack zero_value asset_data own (ok (name, true)) h = own (drop 4 asset_data)

map_ok-own :
    {A : Type 0} (f : A → Parts) (r : Result A)
    → fails_for_fuel r ≡ false
    → fails_for_fuel (map_ok f r) ≡ false
map_ok-own f (err e) h = h
map_ok-own f (ok value) h = refl

module _ (abi : Abi) (own : OwnErrors abi) where
  parts_named-own :
      (name : AssetName) (asset_data : Bytes)
      → fails_for_fuel (parts_named abi name asset_data) ≡ false
  unfolding parts_named
  parts_named-own erc20_token asset_data =
      map_ok-own (contract erc20) (decode abi.unpack_erc20 0 asset_data)
        (decode-own abi.unpack_erc20 0 asset_data own.erc20_own)
  parts_named-own erc721_token asset_data =
      map_ok-own (λ token. contract erc721 token.address)
        (decode abi.unpack_erc721 no_token asset_data)
        (decode-own abi.unpack_erc721 no_token asset_data own.erc721_own)
  parts_named-own erc1155_assets asset_data =
      map_ok-own (λ assets. contract erc1155 assets.address)
        (decode abi.unpack_erc1155 no_assets asset_data)
        (decode-own abi.unpack_erc1155 no_assets asset_data own.erc1155_own)
  parts_named-own static_call asset_data =
      map_ok-own (λ call. nothing) (decode abi.unpack_static_call no_call asset_data)
        (decode-own abi.unpack_static_call no_call asset_data own.static_call_own)
  parts_named-own multi_asset asset_data =
      map_ok-own (λ multi. nested multi.nested_asset_data)
        (decode abi.unpack_multi no_nested asset_data)
        (decode-own abi.unpack_multi no_nested asset_data own.multi_own)
  parts_named-own check_gas_price asset_data = refl
  parts_named-own erc20_bridge asset_data = refl

  parts_of-own : (asset_data : Bytes) → fails_for_fuel (parts_of abi asset_data) ≡ false
  unfolding parts_of
  parts_of-own asset_data = by_name asset_data (get_name asset_data) (get_name-own asset_data)
    where
      by_name :
          (asset_data : Bytes) (name : Result AssetName)
          → fails_for_fuel name ≡ false
          → fails_for_fuel (elim name [ err e ↦ err e | ok name ↦ parts_named abi name asset_data ])
            ≡ false
      by_name asset_data (err e) h = h
      by_name asset_data (ok name) h = parts_named-own name asset_data

  and_then-ends :
      (r : Option Error × Contracts) (rest : Contracts → Option Error × Contracts)
      → ran_out r.0 ≡ false
      → ((c : Contracts) → ran_out (rest c).0 ≡ false)
      → ran_out (and_then abi r rest).0 ≡ false
  and_then-ends (some e, c) rest h k = h
  and_then-ends (none, c) rest h k = k c

  for_each-ends :
      (limit : ℕ) (body : Bytes → Contracts → Option Error × Contracts) (list : List Bytes)
      (c : Contracts)
      → All (λ inner. length inner < limit) list
      → ((inner : Bytes) (c' : Contracts)
          → length inner < limit
          → ran_out (body inner c').0 ≡ false)
      → ran_out (for_each abi body list c).0 ≡ false
  for_each-ends limit body [] c shorter ends = refl
  for_each-ends limit body (x ∷ xs) c (here, shorter) ends =
      and_then-ends (body x c) (for_each abi body xs) (ends x c here)
        (λ c'. for_each-ends limit body xs c' shorter ends)

  walk_parts-ends :
      (act : Action abi) (asset_data : Bytes) (body : Bytes → Contracts → Option Error × Contracts)
      (r : Result Parts) (c : Contracts)
      → fails_for_fuel r ≡ false
      → FineParts asset_data r
      → ((inner : Bytes) (c' : Contracts)
          → length inner < length asset_data
          → ran_out (body inner c').0 ≡ false)
      → ran_out (walk_parts abi act body r c).0 ≡ false
  walk_parts-ends act asset_data body (err e) c h shorter ends = h
  walk_parts-ends act asset_data body (ok (contract standard address)) c h shorter ends = refl
  walk_parts-ends act asset_data body (ok nothing) c h shorter ends = refl
  walk_parts-ends act asset_data body (ok (nested list)) c h shorter ends =
      for_each-ends (length asset_data) body list c shorter ends

  module _ (laws : NestedShorter abi) where
    walk-ends :
        (act : Action abi) (fuel : ℕ) (asset_data : Bytes) (c : Contracts)
        → length asset_data < fuel
        → ran_out (walk abi act fuel asset_data c).0 ≡ false
    unfolding walk
    walk-ends act zero asset_data c enough = absurd (omega (arith, enough))
    walk-ends act (suc fuel) asset_data c enough =
        walk_parts-ends act asset_data (walk abi act fuel) (parts_of abi asset_data) c
          (parts_of-own asset_data) (parts_of-shorter abi laws asset_data)
          (λ inner c' shorter. walk-ends act fuel inner c' (omega (arith, shorter, enough)))

    -- If nested bytes are never longer than what they are decoded from, and the ABI's decoder has
    -- its own errors, then adding asset data ends: it does not run out of the fuel of the model,
    -- and with any other fuel above the length of the asset data it comes to the same error or
    -- the same state.
    pub add_asset_data_total :
        (fuel : ℕ) (asset_data : Bytes) (c : Contracts)
        → length asset_data < fuel
        → ((add_asset_data abi asset_data c).0 ≢ some out_of_fuel)
          × (walk abi add_contract fuel asset_data c ≡ add_asset_data abi asset_data c)
    add_asset_data_total fuel asset_data c enough =
        let same = add_asset_data-fuel abi laws fuel asset_data c enough in
        let ends =
          ap (λ r. ran_out r.0) (sym same) ∙ walk-ends add_contract fuel asset_data c enough in
        (λ e. let bad = sym (ap ran_out e) ∙ ends in cc, same)
