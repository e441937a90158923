-- ===== src/ContractAddresses.antt =====
-- ethereum/contract_addresses.go: the addresses of the contracts of a chain, and the address 0 of
-- constants/constants.go, which stands for none.
use x_mesh.Prelude.{ℕ}

pub record ContractAddresses : Type 0 where
  pub erc20_proxy : ℕ
  pub erc721_proxy : ℕ
  pub erc1155_proxy : ℕ
  pub coordinator : ℕ
  pub coordinator_registry : ℕ
  pub dev_utils : ℕ
  pub exchange : ℕ
  pub weth9 : ℕ
  pub zrx_token : ℕ
  pub chai_bridge : ℕ
  pub chai_token : ℕ
  pub maximum_gas_price : ℕ

abbrev pub null_address : ℕ
null_address = 0
