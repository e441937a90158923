-- ===== src/OrderWatch/Contracts/Depth.antt =====
-- Nested asset data (zeroex/orderwatch/order_watcher.go) is shorter than what it stands in, so that the
-- recursion over it does not depend on enough fuel.
use x_mesh.Prelude.{
  ℕ, zero, suc, ◌<◌, ◌≤◌, ◌≡◌, refl, ap, subst, ◌∙◌, ◌⊎◌, inl, inr, Bool, false, Option, none, some,
  List, [], ◌∷◌, ltb, Bool-cases, length, length-drop, drop, All, arith,
}
use x_mesh.Errors.{Error, Result, ok, err, Result-cases}
use x_mesh.Db.Escape.{Bytes}
use x_mesh.AssetData.{
  Abi, AssetName, erc20_token, erc721_token, erc1155_assets, static_call, check_gas_price,
  multi_asset, erc20_bridge, no_token, no_assets, no_call, no_nested, MultiAssetData, info_of,
  get_name, decode,
}
use x_mesh.OrderWatch.Contracts.{
  erc20, erc721, erc1155, map_ok, Contracts, Parts, contract, nothing, nested, parts_named,
  parts_of, Action, and_then, for_each, walk_parts, walk, add_contract, add_asset_data,
}

-- The ABI's decoder takes nested bytes out of the bytes that it is given.
abbrev pub NestedShorter : Abi → Type 0
NestedShorter abi =
    (encoded : Bytes) (multi : MultiAssetData)
    → abi.unpack_multi encoded ≡ ok multi
    → All (λ inner. length inner ≤ length encoded) multi.nested_asset_data

not_less : (n : ℕ) → ltb n 4 ≡ false → 4 ≤ n
not_less n e = ground arith

info_of-long :
    (asset_data : Bytes) (info : AssetName × Bool)
    → info_of asset_data ≡ ok info
    → 4 ≤ length asset_data
unfolding info_of
info_of-long asset_data info h = elim (Bool-cases (ltb (length asset_data) 4)) [
  | inl short ↦ let bad = rw (short, info_of) at h in cc
  | inr long ↦ not_less (length asset_data) long
]

-- What a decoded value is.
decode-cases :
    {A : Type 0} (unpack : Bytes → Result A) (zero_value value : A) (asset_data : Bytes)
    → decode unpack zero_value asset_data ≡ ok value
    → (ok zero_value ≡ ok value)
      ⊎ ((4 ≤ length asset_data) × (unpack (drop 4 asset_data) ≡ ok value))
unfolding decode
decode-cases unpack zero_value value asset_data h = elim (Result-cases (info_of asset_data)) [
  | inr (e, failed) ↦ let bad = rw (failed, decode) at h in cc
  | inl ((name, has_inputs), found) ↦ elim (Bool-cases has_inputs) [
    | inl e ↦ inr (info_of-long asset_data (name, has_inputs) found, rw (found, e, decode) at h)
    | inr e ↦ inl (rw (found, e, decode) at h)
  ]
]

-- Nested asset data is shorter than what it stands in.
abbrev InnerShorter : Bytes → Result MultiAssetData → Type 0
InnerShorter asset_data (err e) = Unit
InnerShorter asset_data (ok multi) =
    All (λ inner. length inner < length asset_data) multi.nested_asset_data

abbrev Shorter : Bytes → Parts → Type 0
Shorter asset_data (nested list) = All (λ inner. length inner < length asset_data) list
Shorter asset_data parts = Unit

abbrev pub FineParts : Bytes → Result Parts → Type 0
FineParts asset_data (err e) = Unit
FineParts asset_data (ok parts) = Shorter asset_data parts

All-shorter :
    (list : List Bytes) (n m : ℕ)
    → n < m
    → All (λ inner. length inner ≤ n) list
    → All (λ inner. length inner < m) list
All-shorter [] n m less h = tt
All-shorter (x ∷ xs) n m less (here, h) = (omega (arith, less, here), All-shorter xs n m less h)

map_ok-FineParts :
    {A : Type 0} (asset_data : Bytes) (f : A → Parts) (r : Result A)
    → ((value : A) → r ≡ ok value → Shorter asset_data (f value))
    → FineParts asset_data (map_ok f r)
map_ok-FineParts asset_data f (err e) h = tt
map_ok-FineParts asset_data f (ok value) h = h value refl

module _ (abi : Abi) (laws : NestedShorter abi) where
  nested-shorter :
      (asset_data : Bytes) (multi : MultiAssetData)
      → decode abi.unpack_multi no_nested asset_data ≡ ok multi
      → All (λ inner. length inner < length asset_data) multi.nested_asset_data
  nested-shorter asset_data multi h =
      elim (decode-cases abi.unpack_multi no_nested multi asset_data h) [
        | inl e ↦ subst (InnerShorter asset_data) e tt
        | inr (long, e) ↦
            All-shorter multi.nested_asset_data (length (drop 4 asset_data)) (length asset_data)
              (omega (arith, long, length-drop 4 asset_data)) (laws (drop 4 asset_data) multi e)
      ]

  parts_named-shorter :
      (name : AssetName) (asset_data : Bytes)
      → FineParts asset_data (parts_named abi name asset_data)
  unfolding parts_named
  parts_named-shorter erc20_token asset_data =
      map_ok-FineParts asset_data (contract erc20) (decode abi.unpack_erc20 0 asset_data)
        (λ v h. tt)
  parts_named-shorter erc721_token asset_data =
      map_ok-FineParts asset_data (λ token. contract erc721 token.address)
        (decode abi.unpack_erc721 no_token asset_data) (λ v h. tt)
  parts_named-shorter erc1155_assets asset_data =
      map_ok-FineParts asset_data (λ assets. contract erc1155 assets.address)
        (decode abi.unpack_erc1155 no_assets asset_data) (λ v h. tt)
  parts_named-shorter static_call asset_data =
      map_ok-FineParts asset_data (λ call. nothing)
        (decode abi.unpack_static_call no_call asset_data) (λ v h. tt)
  parts_named-shorter multi_asset asset_data =
      map_ok-FineParts asset_data (λ multi. nested multi.nested_asset_data)
        (decode abi.unpack_multi no_nested asset_data) (nested-shorter asset_data)
  parts_named-shorter check_gas_price asset_data = tt
  parts_named-shorter erc20_bridge asset_data = tt

  pub parts_of-shorter : (asset_data : Bytes) → FineParts asset_data (parts_of abi asset_data)
  unfolding parts_of
  parts_of-shorter asset_data =
      elim (get_name asset_data)
        as (λ r.
          FineParts asset_data
            (elim r [ err e ↦ err e | ok name ↦ parts_named abi name asset_data ])) [
              | err e ↦ tt
              | ok name ↦ parts_named-shorter name asset_data
            ]

  and_then-same :
      (r : Option Error × Contracts) (rest rest' : Contracts → Option Error × Contracts)
      → ((c : Contracts) → rest c ≡ rest' c)
      → and_then abi r rest ≡ and_then abi r rest'
  and_then-same (some e, c) rest rest' h = refl
  and_then-same (none, c) rest rest' h = h c

  for_each-same :
      (limit : ℕ) (body body' : Bytes → Contracts → Option Error × Contracts) (list : List Bytes)
      (c : Contracts)
      → All (λ inner. length inner < limit) list
      → ((inner : Bytes) (c' : Contracts) → length inner < limit → body inner c' ≡ body' inner c')
      → for_each abi body list c ≡ for_each abi body' list c
  for_each-same limit body body' [] c fine same = refl
  for_each-same limit body body' (x ∷ xs) c (here, fine) same =
      ap (λ r. and_then abi r (for_each abi body xs)) (same x c here)
      ∙ and_then-same (body' x c) (for_each abi body xs) (for_each abi body' xs)
          (λ c'. for_each-same limit body body' xs c' fine same)

  -- Any fuel above the length of the asset data leads to the same.
  walk-fuel :
      (act : Action abi) (f g : ℕ) (asset_data : Bytes) (c : Contracts)
      → length asset_data < f
      → length asset_data < g
      → walk abi act f asset_data c ≡ walk abi act g asset_data c
  unfolding walk
  walk-fuel act zero g asset_data c less less' = absurd (omega (arith, less))
  walk-fuel act (suc f) zero asset_data c less less' = absurd (omega (arith, less'))
  walk-fuel act (suc f) (suc g) asset_data c less less' =
      by_parts (parts_of abi asset_data) (parts_of-shorter asset_data) (λ inner c' shorter.
        walk-fuel act f g inner c' (omega (arith, shorter, less)) (omega (arith, shorter, less')))
    where
      by_parts :
          (r : Result Parts)
          → FineParts asset_data r
          → ((inner : Bytes) (c' : Contracts)
              → length inner < length asset_data
              → walk abi act f inner c' ≡ walk abi act g inner c')
          → walk_parts abi act (walk abi act f) r c ≡ walk_parts abi act (walk abi act g) r c
      by_parts (err e) fine same = refl
      by_parts (ok (contract standard address)) fine same = refl
      by_parts (ok nothing) fine same = refl
      by_parts (ok (nested list)) fine same =
          for_each-same (length asset_data) (walk abi act f) (walk abi act g) list c fine same

  -- Adding does not depend on a fuel above the length of the asset data.
  pub add_asset_data-fuel :
      (fuel : ℕ) (asset_data : Bytes) (c : Contracts)
      → length asset_data < fuel
      → walk abi add_contract fuel asset_data c ≡ add_asset_data abi asset_data c
  unfolding add_asset_data
  add_asset_data-fuel fuel asset_data c enough =
      walk-fuel add_contract fuel (suc (length asset_data)) asset_data c enough (omega arith)
