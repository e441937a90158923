-- ===== src/BlockWatch/FastSync.antt =====
-- ethereum/blockwatch/block_watcher.go: `FastSyncToLatestBlock` and `getMissedEventsToBackfill`.
pub mod Grouping
pub mod Effect
use x_mesh.Prelude.{
  ℕ, zero, suc, ◌+◌, ◌-◌, Bool, true, false, Option, none, some, List, [], ◌∷◌, ◌++◌, ◌==◌, ltb,
  if◌then◌else◌, map,
}
use x_mesh.Prelude.Int.{ℤ, pos, negsuc, sub_ℕ, is_zero, lt_ℕ, shift}
use x_mesh.Errors.{Error, Result, ok, err, already_started}
use x_mesh.MiniHeader.{Log, MiniHeader}
use x_mesh.BlockWatch.Types.{Event, EventType, Config, Watcher}
use x_mesh.BlockWatch.Sync.{max_blocks_stored_in_non_archive_node}
use x_mesh.BlockWatch.Logs.{Gathered, get_logs_in_block_range}

-- `blockHeader.Logs = append(blockHeader.Logs, log)` for the header of the block, if there is one.
unfoldable pub add_log : Log → List MiniHeader → Option (List MiniHeader)
add_log l [] = none
add_log l (h ∷ hs) = elim (h.hash == l.block_hash) [
  | true ↦ some (record h { logs = h.logs ++ l ∷ [] } ∷ hs)
  | false ↦ elim (add_log l hs) [ none ↦ none | some hs' ↦ some (h ∷ hs') ]
]

module _ {S W : Type 0} (config : Config S W) where
  open config use {stack, client}

  -- The header of a block that is not in the map yet, with its first log.
  new_header : Log → MiniHeader → MiniHeader
  new_header l header = record {
    hash = l.block_hash;
    parent = header.parent;
    number = l.block_number;
    timestamp = header.timestamp;
    logs = l ∷ [];
  }

  -- The loop that groups the logs by block. The map is the list of its values, in the order in which
  -- the blocks were met.
  unfoldable pub group_logs : List Log → List MiniHeader → W → Result (List MiniHeader) × W
  unfolding new_header
  group_logs [] hs node = (ok hs, node)
  group_logs (l ∷ ls) hs node = elim (add_log l hs) [
    | some hs' ↦ group_logs ls hs' node
    | none ↦
        let (found, node') = client.header_by_number (some l.block_number) node in
        elim found [
          | err e ↦ (err e, node')
          | ok header ↦ group_logs ls (hs ++ new_header l header ∷ []) node'
        ]
  ]

  added_event : MiniHeader → Event
  added_event h = record { type = EventType.added; block_header = h }

  -- `map_order` is the order in which Go walks over the map. With an error the events are empty.
  unfoldable pub backfill_events :
      (List MiniHeader → List MiniHeader)
      → List Log
      → Watcher S W
      → Result (List Event) × Watcher S W
  unfolding added_event
  backfill_events map_order [] w = (ok [], w)
  backfill_events map_order (l ∷ ls) w =
      let (grouped, node') = group_logs (l ∷ ls) [] w.node in
      let w' = record w { node = node' } in
      elim grouped [ err e ↦ (err e, w') | ok hs ↦ (ok (map added_event (map_order hs)), w') ]

  -- Start again from the furthest block that was processed.
  unfoldable pub restart_stack : ℕ → Watcher S W → Option Error × Watcher S W
  restart_stack furthest w =
      let (failed, headers1) = stack.clear w.headers in
      elim failed [
        | some e ↦ (some e, record w { headers = headers1 })
        | none ↦
            let (found, node') = client.header_by_number (some furthest) w.node in
            elim found [
              | err e ↦ (some e, record w { headers = headers1; node = node' })
              | ok latest ↦
                  let (refused, headers2) = stack.push latest headers1 in
                  (refused, record w { headers = headers2; node = node' })
            ]
      ]

  unfoldable pub get_missed_events_to_backfill :
      (W → Bool)
      → (List MiniHeader → List MiniHeader)
      → ℤ
      → ℕ
      → Watcher S W
      → Result (List Event) × Watcher S W
  get_missed_events_to_backfill cancelled map_order elapsed retained w =
      let (g, node') =
        get_logs_in_block_range config cancelled (retained + 1) (shift retained elapsed) w.node in
      let w1 = record w { node = node' } in
      if ltb retained g.furthest_block_processed
      then (let (failed, w2) = restart_stack g.furthest_block_processed w1 in
          elim failed [ some e ↦ (err e, w2) | none ↦ backfill_events map_order g.all_logs w2 ])
      else (ok [], w1)

  -- `if len(events) > 0 { w.blockFeed.Send(events) }`
  unfoldable pub send_some : List Event → Watcher S W → Watcher S W
  send_some [] w = w
  send_some (e ∷ es) w = record w { sent = w.sent ++ (e ∷ es) ∷ [] }

  unfoldable pub after_backfill :
      ℤ → Result (List Event) × Watcher S W → (ℤ × Option Error) × Watcher S W
  after_backfill elapsed (err e, w) = ((elapsed, some e), w)
  after_backfill elapsed (ok events, w) = ((elapsed, none), send_some events w)

  -- From the last stored header and the latest one: the number of blocks elapsed, and the error.
  unfoldable pub fast_sync_from :
      (W → Bool)
      → (List MiniHeader → List MiniHeader)
      → MiniHeader
      → MiniHeader
      → Watcher S W
      → (ℤ × Option Error) × Watcher S W
  fast_sync_from cancelled map_order stored latest w =
      let elapsed = sub_ℕ latest.number stored.number in
      if is_zero elapsed
      then ((elapsed, none), w)
      else if lt_ℕ elapsed max_blocks_stored_in_non_archive_node
      then after_backfill elapsed
          (get_missed_events_to_backfill cancelled map_order elapsed stored.number w)
      else (let (failed, headers') = stack.clear w.headers in
          ((elapsed, failed), record w { headers = headers' }))

  unfoldable pub fast_sync_to_latest_block :
      (W → Bool)
      → (List MiniHeader → List MiniHeader)
      → Watcher S W
      → (ℤ × Option Error) × Watcher S W
  fast_sync_to_latest_block cancelled map_order w =
      if w.was_started_once
      then ((pos 0, some already_started), w)
      else elim (stack.peek w.headers) [
        | err e ↦ ((pos 0, some e), w)
        | ok none ↦ ((pos 0, none), w)
        | ok (some stored) ↦
            let (found, node') = client.header_by_number none w.node in
            let w' = record w { node = node' } in
            elim found [
              | err e ↦ ((pos 0, some e), w')
              | ok latest ↦ fast_sync_from cancelled map_order stored latest w'
            ]
      ]
