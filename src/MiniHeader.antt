-- ===== src/MiniHeader.antt =====
-- ethereum/miniheader/miniheader.go, and the `types.Log` of go-ethereum that it holds. A hash, an
-- address and a topic is the number that its bytes spell; a block number is a natural number.
use x_mesh.Prelude.{ℕ, Bool, List}

pub record Log : Type 0 where
  pub address : ℕ
  pub topics : List ℕ
  pub payload : List ℕ
  pub block_number : ℕ
  pub tx_hash : ℕ
  pub tx_index : ℕ
  pub block_hash : ℕ
  pub index : ℕ
  pub removed : Bool

pub record MiniHeader : Type 0 where
  pub hash : ℕ
  pub parent : ℕ
  pub number : ℕ
  pub timestamp : ℕ
  pub logs : List Log
