-- ===== src/BlockWatch/Sync.antt =====
-- ethereum/blockwatch/block_watcher.go: `SyncToLatestBlock` and `shouldRevertChanges`.
use x_mesh.Prelude.{
  ℕ, zero, suc, ◌+◌, ◌-◌, Bool, true, false, Option, none, some, List, [], ◌∷◌, ◌++◌, ◌==◌, leb,
  if◌then◌else◌, get_last?,
}
use x_mesh.Errors.{Error, Result, ok, err, panic, too_many_blocks_behind}
use x_mesh.MiniHeader.{MiniHeader}
use x_mesh.BlockWatch.Types.{Event, Config, Watcher, Outcome}
use x_mesh.BlockWatch.Chain.{build_canonical_chain}

-- constants.go
abbrev pub max_blocks_stored_in_non_archive_node : ℕ
max_blocks_stored_in_non_archive_node = 128

unfoldable pub should_revert_changes : Option MiniHeader → List Event → Bool
should_revert_changes none events = false
should_revert_changes (some last_stored) events = elim (get_last? events) [
  | none ↦ false
  | some newest ↦ leb newest.block_header.number last_stored.number
]

-- `None`: nothing to do. The blocks that `SyncToLatestBlock` fetches: one if none is stored yet.
unfoldable pub num_blocks_to_fetch : MiniHeader → Option MiniHeader → ℕ
num_blocks_to_fetch latest none = 1
num_blocks_to_fetch latest (some stored) =
    if leb latest.number stored.number then 0 else latest.number - stored.number

module _ {S W : Type 0} (config : Config S W) where
  open config use {stack, client}

  -- The header of one round: the latest one if it is the only one to fetch, else the one above the
  -- top of the stack. A round on an empty stack would read through a nil pointer.
  unfoldable pub next_header : Bool → MiniHeader → Watcher S W → Result MiniHeader × W
  next_header true latest w = (ok latest, w.node)
  next_header false latest w = elim (stack.peek w.headers) [
    | err e ↦ (err e, w.node)
    | ok none ↦ (err panic, w.node)
    | ok (some stored) ↦ client.header_by_number (some (stored.number + 1)) w.node
  ]

  -- The loop of `SyncToLatestBlock` over the rounds left; `error` is `syncErr`.
  unfoldable pub sync_rounds : ℕ → Bool → MiniHeader → List Event → Watcher S W → Outcome S W
  sync_rounds zero only latest all_events w = record {
    events = all_events;
    error = none;
    watcher = w;
  }
  sync_rounds (suc n) only latest all_events w =
      let (next, node') = next_header only latest w in
      let w' = record w { node = node' } in
      elim next [
        | err e ↦ record { events = all_events; error = some e; watcher = w' }
        | ok header ↦
            let built = build_canonical_chain config header [] w' in
            let all_events' = all_events ++ built.events in
            elim (built.error) [
              | some e ↦ record { events = all_events'; error = some e; watcher = built.watcher }
              | none ↦ sync_rounds n only latest all_events' built.watcher
            ]
      ]

  -- What follows the loop: reset the stack to the checkpoint, or keep the changes and send them.
  unfoldable pub finish_sync : ℕ → Option MiniHeader → Outcome S W → Option Error × Watcher S W
  finish_sync checkpoint_id last_stored o =
      let w = o.watcher in
      elim (o.events) [
        | [] ↦ (o.error, w)
        | _ ∷ _ ↦
            if should_revert_changes last_stored o.events
            then (let (failed, headers') = stack.reset checkpoint_id w.headers in
                let w' = record w { headers = headers' } in
                elim failed [ some e ↦ (some e, w') | none ↦ (o.error, w') ])
            else (let (id, headers') = stack.checkpoint w.headers in
                elim id [
                  | err e ↦ (some e, record w { headers = headers' })
                  | ok _ ↦
                      (o.error, record w { headers = headers'; sent = w.sent ++ o.events ∷ [] })
                ])
      ]

  -- From the latest header and the last stored one.
  unfoldable pub sync_from :
      ℕ → MiniHeader → Option MiniHeader → Watcher S W → Option Error × Watcher S W
  sync_from checkpoint_id latest last_stored w =
      let n = num_blocks_to_fetch latest last_stored in
      if n == 0
      then (none, w)
      else if leb max_blocks_stored_in_non_archive_node n
      then (some (too_many_blocks_behind n), w)
      else finish_sync checkpoint_id last_stored (sync_rounds n (n == 1) latest [] w)

  unfoldable pub sync_to_latest_block : Watcher S W → Option Error × Watcher S W
  sync_to_latest_block w =
      let (id, headers') = stack.checkpoint w.headers in
      elim id [
        | err e ↦ (some e, record w { headers = headers' })
        | ok checkpoint_id ↦
            let (found, node') = client.header_by_number none w.node in
            let w' = record w { headers = headers'; node = node' } in
            elim found [
              | err e ↦ (some e, w')
              | ok latest ↦ elim (stack.peek headers') [
                | err e ↦ (some e, w')
                | ok last_stored ↦ sync_from checkpoint_id latest last_stored w'
              ]
            ]
      ]
