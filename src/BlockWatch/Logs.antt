-- ===== src/BlockWatch/Logs.antt =====
-- ethereum/blockwatch/block_watcher.go: `filterLogsRecurisively` and `getLogsInBlockRange`.
pub mod Recursive
pub mod InRange
use text.Mathlib.Text.{◌==◌ as str_eq}
use x_mesh.Prelude.{
  ℕ, zero, suc, ◌+◌, ◌-◌, ◌/◌, Bool, true, false, String, List, [], ◌∷◌, ◌++◌, ◌==◌, leb,
  if◌then◌else◌, length, take, drop,
}
use x_mesh.Errors.{Error, other, Result, ok, err, too_many_logs, out_of_fuel}
use x_mesh.MiniHeader.{Log}
use x_mesh.BlockWatch.Types.{FilterQuery, of_range, Config}
use x_mesh.BlockWatch.Ranges.{BlockRange, get_sub_block_ranges}

abbrev pub infura_too_many_results_err_msg : String
infura_too_many_results_err_msg = "query returned more than 10000 results"

-- `err.Error() == infuraTooManyResultsErrMsg`: no error that the modelled code makes has that text.
unfoldable pub is_too_many_results : Error → Bool
is_too_many_results (other message) = str_eq message infura_too_many_results_err_msg
is_too_many_results _ = false

abbrev pub max_blocks_in_get_logs_query : ℕ
max_blocks_in_get_logs_query = 60

abbrev pub get_logs_request_chunk_size : ℕ
get_logs_request_chunk_size = 3

-- `from + (to - from) / 2`, where Go's division of a negative number rounds towards zero.
unfoldable pub end_first_half : ℕ → ℕ → ℕ
end_first_half from to = if leb from to then from + (to - from) / 2 else from - (from - to) / 2

-- The slices of at most three ranges that are requested together. `n` is a bound on their number.
unfoldable pub chunks : ℕ → List BlockRange → List (List BlockRange)
chunks zero ranges = []
chunks (suc n) [] = []
chunks (suc n) (r ∷ rs) =
    take get_logs_request_chunk_size (r ∷ rs) ∷ chunks n (drop get_logs_request_chunk_size (r ∷ rs))

-- `logRequestResult`: the range that was asked for, and the logs or the error.
pub record LogRequestResult : Type 0 where
  pub range : BlockRange
  pub logs : Result (List Log)

-- The variables of the loop over the chunks.
pub record Gathered : Type 0 where
  pub all_logs : List Log
  pub furthest_block_processed : ℕ
  pub did_a_previous_request_fail : Bool

-- The loop over the results of one chunk, which ends at the first error. The block before the range
-- is `From - 1`; `getLogsInBlockRange` is called with a first block above 0.
unfoldable pub gather : List LogRequestResult → Gathered → Gathered
gather [] g = g
gather (r ∷ rs) g = elim (r.logs) [
  | err e ↦ record g {
    did_a_previous_request_fail = true;
    furthest_block_processed = r.range.from_block - 1;
  }
  | ok logs ↦
      gather rs
        (record g { all_logs = g.all_logs ++ logs; furthest_block_processed = r.range.to_block })
]

module _ {S W : Type 0} (config : Config S W) where
  open config use {client, topics}

  unfoldable query_topics : List ℕ → List (List ℕ)
  query_topics [] = []
  query_topics (t ∷ ts) = (t ∷ ts) ∷ []

  -- An inverted range, of which the first half need not be shorter, is bounded by the fuel alone.
  unfoldable pub filter_logs_recursively : ℕ → ℕ → ℕ → List Log → W → Result (List Log) × W
  unfolding query_topics
  filter_logs_recursively zero from to all_logs node = (err out_of_fuel, node)
  filter_logs_recursively (suc fuel) from to all_logs node =
      let (found, node') = client.filter_logs (of_range from to (query_topics topics)) node in
      elim found [
        | ok logs ↦ (ok (all_logs ++ logs), node')
        | err e ↦ elim (is_too_many_results e) [
          | false ↦ (err e, node')
          | true ↦ elim (from == to) [
            | true ↦ (err (too_many_logs from), node')
            | false ↦
                let middle = end_first_half from to in
                let (first, node1) = filter_logs_recursively fuel from middle all_logs node' in
                elim first [
                  | err e' ↦ (err e', node1)
                  | ok all_logs' ↦ filter_logs_recursively fuel (middle + 1) to all_logs' node1
                ]
          ]
        ]
      ]

  -- One goroutine. `cancelled` is `ctx.Done()` as it starts.
  unfoldable pub request : (W → Bool) → BlockRange → W → Result (List Log) × W
  request cancelled r node = elim (cancelled node) [
    | true ↦ (err (other "context was canceled"), node)
    | false ↦
        filter_logs_recursively (suc (r.to_block - r.from_block)) r.from_block r.to_block [] node
  ]

  -- The goroutines of one chunk. Their requests run at the same time and are gathered by index; here
  -- the node sees them in the order of the chunk.
  unfoldable pub run_chunk : (W → Bool) → List BlockRange → W → List LogRequestResult × W
  run_chunk cancelled [] node = ([], node)
  run_chunk cancelled (r ∷ rs) node =
      let (logs, node1) = request cancelled r node in
      let (results, node2) = run_chunk cancelled rs node1 in
      (record { range = r; logs = logs } ∷ results, node2)

  -- One round of the loop over the chunks: nothing is requested after an error.
  unfoldable pub round : (W → Bool) → List BlockRange → Gathered → W → Gathered × W
  round cancelled chunk g node =
      if g.did_a_previous_request_fail
      then (g, node)
      else (let (results, node') = run_chunk cancelled chunk node in (gather results g, node'))

  unfoldable pub run_chunks : (W → Bool) → List (List BlockRange) → Gathered → W → Gathered × W
  run_chunks cancelled [] g node = (g, node)
  run_chunks cancelled (c ∷ cs) g node =
      let (g', node') = round cancelled c g node in run_chunks cancelled cs g' node'

  unfoldable pub get_logs_in_block_range : (W → Bool) → ℕ → ℕ → W → Gathered × W
  get_logs_in_block_range cancelled from to node =
      let ranges = get_sub_block_ranges from to max_blocks_in_get_logs_query in
      run_chunks cancelled (chunks (length ranges) ranges)
        (record {
          all_logs = [];
          furthest_block_processed = from - 1;
          did_a_previous_request_fail = false;
        })
        node
