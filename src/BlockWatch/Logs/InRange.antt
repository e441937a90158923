-- ===== src/BlockWatch/Logs/InRange.antt =====
-- `getLogsInBlockRange` returns the logs of the blocks up to the one that it names, with no gap.
use x_mesh.Prelude.{ℕ, ◌+◌, ◌≤◌, ◌<◌, ◌≡◌, false, List, [], ◌∷◌}
use x_mesh.Errors.{ok}
use x_mesh.MiniHeader.{Log}
use x_mesh.BlockWatch.Types.{Config}
use x_mesh.BlockWatch.Ranges.{BlockRange, Tiles}
use x_mesh.BlockWatch.Logs.Recursive.{logs_between}
use x_mesh.BlockWatch.Logs.{Gathered, LogRequestResult}

module _ {S W : Type 0} (config : Config S W) (chain : ℕ → List Log) (first last : ℕ)
    (positive : 0 < first) where
  open config use {client}

  -- The logs gathered are those of the blocks from `first` to the furthest processed. Unless a request failed, the
  -- ranges that are left begin behind it.
  record Covers (ranges : List BlockRange) (g : Gathered) : Type 0 where
    logs : g.all_logs ≡ logs_between chain first g.furthest_block_processed
    low : first ≤ g.furthest_block_processed + 1
    high : g.furthest_block_processed ≤ last
    rest :
        g.did_a_previous_request_fail ≡ false → Tiles (g.furthest_block_processed + 1) ranges last

  -- The results of a chunk are about its ranges, and a good one has the logs of its range.
  abbrev AnswersFor : List BlockRange → List LogRequestResult → Type 0
  AnswersFor [] [] = Unit
  AnswersFor (b ∷ bs) (r ∷ rs) =
      (r.range ≡ b)
      × ((logs : List Log)
          → r.logs ≡ ok logs
          → b.from_block ≤ b.to_block
          → logs ≡ logs_between chain b.from_block b.to_block)
      × AnswersFor bs rs
  AnswersFor _ _ = ⊥
