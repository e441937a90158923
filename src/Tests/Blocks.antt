-- ===== src/Tests/Blocks.antt =====
-- block_watcher.go at a concrete node and stack.
use x_mesh.Prelude.{
  ◌<◌, ◌≡◌, refl, false, none, some, map, ◌==◌, if◌then◌else◌, List, [], ◌∷◌, reverse, arith, All,
}
use x_mesh.Prelude.Int.{pos}
use x_mesh.Errors.{ok, err, other}
use x_mesh.MiniHeader.{Log, MiniHeader}
use x_mesh.SimpleStack.{
  SimpleStack, new, peek, pop_header, push_header, peek_all, clear, checkpoint, reset, has_number,
  make_room, revert_all,
}
use x_mesh.SimpleStack.Reset.{checkpoint-Since}
use x_mesh.BlockWatch.Types.{Client, Watcher, Event, EventType, added, removed}
use x_mesh.BlockWatch.Simple.{simple_stack, simple_stack_laws, ValidHere}
use x_mesh.BlockWatch.Laws.{StackLaws}
use x_mesh.BlockWatch.Chain.{add_logs, push_next, build_chain, chain_fuel, build_canonical_chain}
use x_mesh.BlockWatch.Follows.{Follows}
use x_mesh.BlockWatch.Linked.{LinkedOutcome, build_chain-Linked}
use x_mesh.BlockWatch.Depth.{build_canonical_chain_total}
use x_mesh.BlockWatch.Sync.{
  should_revert_changes, num_blocks_to_fetch, next_header, sync_rounds, finish_sync, sync_from,
  sync_to_latest_block,
}
use x_mesh.BlockWatch.Synced.{SyncedValid, sync_to_latest_block-Synced}
use x_mesh.BlockWatch.Ranges.{Tiles, IsWithin, get_sub_block_ranges, get_sub_block_ranges-Tiles}
use x_mesh.BlockWatch.Logs.{
  filter_logs_recursively, get_logs_in_block_range, chunks, gather, request, run_chunk, round,
  run_chunks, end_first_half, is_too_many_results,
}
use x_mesh.BlockWatch.Logs.Recursive.{
  wanted, logs_between, logs_from, filter_logs_recursively_total,
}
use x_mesh.BlockWatch.FastSync.{
  fast_sync_to_latest_block, fast_sync_from, after_backfill, get_missed_events_to_backfill,
  send_some, restart_stack, backfill_events, group_logs, add_log,
}
use x_mesh.BlockWatch.FastSync.Effect.{FastSynced, fast_sync_to_latest_block-FastSynced}
use x_mesh.BlockWatch.FastSync.Grouping.{logs_held, logs_in_block, group_logs-logs_in_block}
use x_mesh.Tests.Nodes.{block, log_of, chain, node_client, config, finds, copes}
use x_mesh.Tests.Stacks.{header}

-- The node moved to another block 4: the stored headers 4 and 5 are of a fork.
abbrev stored : SimpleStack
stored = new 20 (header 103 102 3 ∷ header 904 103 4 ∷ header 905 904 5 ∷ [])

abbrev watcher : Watcher SimpleStack (Unit {0})
watcher = record { headers = stored; node = tt; sent = []; was_started_once = false }

program : Unit {0}
unfolding new peek pop_header push_header peek_all clear checkpoint reset has_number make_room
    revert_all add_logs push_next build_chain chain_fuel build_canonical_chain should_revert_changes
    num_blocks_to_fetch next_header sync_rounds finish_sync sync_from sync_to_latest_block
    get_sub_block_ranges filter_logs_recursively get_logs_in_block_range chunks gather request
    run_chunk round run_chunks end_first_half is_too_many_results fast_sync_to_latest_block
    fast_sync_from after_backfill get_missed_events_to_backfill send_some restart_stack
    backfill_events group_logs add_log logs_from
program = tt

-- The fork is removed, and the blocks 4 to 6 of the node's chain are added.
sync_reorganises :
    (sync_to_latest_block config watcher).1.headers.mini_headers
    ≡ header 103 102 3
      ∷ record (block 4) { logs = log_of 4 ∷ [] }
      ∷ record (block 5) { logs = log_of 5 ∷ [] }
      ∷ record (block 6) { logs = log_of 6 ∷ [] }
      ∷ []
unfolding program
sync_reorganises = refl

-- Block 4 is added behind block 3, and removed as the next block does not follow it; the block before
-- that one cannot be fetched. The last event is of a later block, and the headers are as before.
abbrev lost_client : Client (Unit {0})
lost_client = record node_client {
  header_by_number = λ n node. (
    elim n [
      | none ↦ ok (record (block 5) { parent = 999 })
      | some k ↦ ok (if k == 5 then record (block 5) { parent = 999 } else block k)
    ],
    node,
  );
  header_by_hash = λ hash node. (err (other "not found"), node);
}

abbrev at_three : Watcher SimpleStack (Unit {0})
at_three = record {
  headers = new 20 (block 3 ∷ []);
  node = tt;
  sent = [];
  was_started_once = false;
}

abbrev types_sent : List (List Event) → List (List EventType)
types_sent batches = map (λ batch. map (λ e. e.type) batch) batches

sync_sends_removal :
    let w = (sync_to_latest_block (record config { client = lost_client }) at_three).1 in
    (types_sent w.sent ≡ (added ∷ removed ∷ []) ∷ []) × (w.headers.mini_headers ≡ block 3 ∷ [])
unfolding program
sync_sends_removal = (refl, refl)

fast_sync_restarts :
    (fast_sync_to_latest_block config (λ node. false) (λ hs. hs) watcher).0 ≡ (pos 1, none)
unfolding program
fast_sync_restarts = refl

ranges_of_150 :
    get_sub_block_ranges 10 160 60
    ≡ record { from_block = 10; to_block = 69 }
      ∷ record { from_block = 70; to_block = 129 }
      ∷ record { from_block = 130; to_block = 160 }
      ∷ []
unfolding program
ranges_of_150 = refl

twenty : 0 < 20
twenty = omega arith

stored-Valid : ValidHere 20 twenty stored
unfolding program
stored-Valid = (
  record { positive = twenty; bounded = omega arith; distinct = (refl, (refl, (refl, tt))) },
  refl,
)

abbrev laws : StackLaws simple_stack
laws = simple_stack_laws 20 twenty

laws-IsValid : laws.IsValid stored
unfolding simple_stack_laws
laws-IsValid = stored-Valid

sync_to_latest_block-Synced_example :
    SyncedValid config laws watcher (sync_to_latest_block config watcher)
sync_to_latest_block-Synced_example = sync_to_latest_block-Synced config laws watcher laws-IsValid

-- The stack of the watcher behind a checkpoint.
abbrev marked : Watcher SimpleStack (Unit {0})
marked = record watcher { headers = (checkpoint stored).1 }

marked-Since : laws.Since 1 stored.mini_headers marked.headers
unfolding simple_stack_laws program
marked-Since = ((checkpoint-Since stored stored-Valid.0).1, refl)

marked-Follows : Follows config laws 1 stored.mini_headers stored.mini_headers [] [] marked
unfolding simple_stack_laws program
marked-Follows = record { replays = refl; since = marked-Since; quiet = refl }

build_chain-Linked_example :
    LinkedOutcome config laws (block 6) (build_chain config 4 (block 6) [] marked)
unfolding simple_stack_laws program
build_chain-Linked_example =
    build_chain-Linked config laws finds 1 stored.mini_headers stored.mini_headers [] 4 (block 6) []
      marked marked-Follows (refl, (refl, tt))

build_canonical_chain_total_example :
    build_canonical_chain config (block 6) [] marked ≡ build_chain config 50 (block 6) [] marked
unfolding simple_stack_laws program
build_canonical_chain_total_example =
    build_canonical_chain_total config laws 1 stored.mini_headers 50 (block 6) [] marked
      marked-Since (omega arith)

get_sub_block_ranges-Tiles_example :
    Tiles 10 (get_sub_block_ranges 10 160 60) 160
    × All (IsWithin 60) (get_sub_block_ranges 10 160 60)
get_sub_block_ranges-Tiles_example =
    get_sub_block_ranges-Tiles 10 160 60 (omega arith) (omega arith)

refused_halves :
    (filter_logs_recursively config 5 2 6 [] tt).0
    ≡ ok (logs_between (λ b. wanted (1 ∷ []) (chain b)) 2 6)
unfolding program
refused_halves = refl

filter_logs_recursively_total_example :
    (logs : List Log) × ((filter_logs_recursively config 5 2 6 [] tt).0 ≡ ok logs)
filter_logs_recursively_total_example =
    filter_logs_recursively_total config chain copes 5 2 6 [] tt (omega arith) (omega arith)

fast_sync_to_latest_block-FastSynced_example :
    FastSynced config laws watcher
      (fast_sync_to_latest_block config (λ node. false) reverse watcher).1
fast_sync_to_latest_block-FastSynced_example =
    fast_sync_to_latest_block-FastSynced config laws (λ node. false) reverse watcher laws-IsValid

abbrev mixed : List Log
mixed = log_of 4 ∷ log_of 5 ∷ record (log_of 4) { index = 1 } ∷ []

abbrev grouped : List MiniHeader
grouped =
    record (block 4) { logs = log_of 4 ∷ record (log_of 4) { index = 1 } ∷ [] }
    ∷ record (block 5) { logs = log_of 5 ∷ [] }
    ∷ []

mixed-grouped : (group_logs config mixed [] tt).0 ≡ ok grouped
unfolding program
mixed-grouped = refl

group_logs-logs_in_block_example : logs_held 104 grouped ≡ logs_in_block 104 mixed
group_logs-logs_in_block_example =
    group_logs-logs_in_block config mixed tt grouped mixed-grouped 104
