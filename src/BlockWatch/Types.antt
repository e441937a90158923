-- ===== src/BlockWatch/Types.antt =====
-- ethereum/blockwatch/block_watcher.go and client.go: events, the interfaces of the stack and of
-- the Ethereum client, the configuration and the state of a watcher.
use x_mesh.Prelude.{ℕ, Bool, Option, List}
use x_mesh.Errors.{Error, Result}
use x_mesh.MiniHeader.{Log, MiniHeader}

pub data EventType : Type 0 where
  added removed : EventType

pub record Event : Type 0 where
  pub type : EventType
  pub block_header : MiniHeader

-- `Stack` of block_watcher.go, over the state `S` of the stack. Reads do not change it.
pub record Stack (S : Type 0) : Type 0 where
  pub pop : S → Result (Option MiniHeader) × S
  pub push : MiniHeader → S → Option Error × S
  pub peek : S → Result (Option MiniHeader)
  pub peek_all : S → Result (List MiniHeader)
  pub clear : S → Option Error × S
  pub checkpoint : S → Result ℕ × S
  pub reset : ℕ → S → Option Error × S

-- `ethereum.FilterQuery`: the logs of one block, or of an inclusive range of blocks.
pub data FilterQuery : Type 0 where
  of_block : ℕ → List (List ℕ) → FilterQuery
  of_range : ℕ → ℕ → List (List ℕ) → FilterQuery

-- `Client` of client.go. `W` is the state of the node behind it: every request may get another
-- answer, and may change what later requests get. `none` asks for the latest header.
pub record Client (W : Type 0) : Type 0 where
  pub header_by_number : Option ℕ → W → Result MiniHeader × W
  pub header_by_hash : ℕ → W → Result MiniHeader × W
  pub filter_logs : FilterQuery → W → Result (List Log) × W

-- `Config`; the polling interval has no part in one synchronisation.
pub record Config (S W : Type 0) : Type 0 where
  pub stack : Stack S
  pub client : Client W
  pub with_logs : Bool
  pub topics : List ℕ

-- `Watcher`: what changes while it runs. `sent` is what `blockFeed.Send` got, in order.
pub record Watcher (S W : Type 0) : Type 0 where
  pub headers : S
  pub node : W
  pub sent : List (List Event)
  pub was_started_once : Bool

-- The two results of `buildCanonicalChain`, which both mean something at once.
pub record Outcome (S W : Type 0) : Type 0 where
  pub events : List Event
  pub error : Option Error
  pub watcher : Watcher S W
