-- ===== src/BlockWatch/Chain.antt =====
-- ethereum/blockwatch/block_watcher.go: `buildCanonicalChain` and `addLogs`.
use x_mesh.Prelude.{
  ℕ, zero, suc, true, false, none, some, List, [], ◌∷◌, ◌++◌, ◌==◌, if◌then◌else◌, length,
}
use x_mesh.Errors.{Result, ok, err, out_of_fuel}
use x_mesh.MiniHeader.{MiniHeader}
use x_mesh.BlockWatch.Types.{EventType, Event, Config, Watcher, Outcome, of_block}

module _ {S W : Type 0} (config : Config S W) where
  open config use {stack, client, with_logs, topics}

  -- With an error the header comes back as it was.
  unfoldable pub add_logs : MiniHeader → W → Result MiniHeader × W
  add_logs header node =
      if with_logs
      then (let (found, node') = client.filter_logs (of_block header.hash (topics ∷ [])) node in
          elim found [
            | err e ↦ (err e, node')
            | ok logs ↦ (ok (record header { logs = logs }), node')
          ])
      else (ok header, node)

  -- Add the logs, push the header, append its event: both branches of `buildCanonicalChain` end so.
  unfoldable pub push_next : MiniHeader → List Event → Watcher S W → Outcome S W
  push_next next events w =
      let (with_logs', node') = add_logs next w.node in
      elim with_logs' [
        | err e ↦ record { events = events; error = some e; watcher = record w { node = node' } }
        | ok header ↦
            let (failed, headers') = stack.push header w.headers in
            elim failed [
              | some e ↦ record {
                events = events;
                error = some e;
                watcher = record w { node = node'; headers = headers' };
              }
              | none ↦ record {
                events = events ++ record { type = EventType.added; block_header = header } ∷ [];
                error = none;
                watcher = record w { node = node'; headers = headers' };
              }
            ]
      ]

  -- Each call of itself follows a `Pop`, so the number of stored headers bounds the depth.
  unfoldable pub build_chain : ℕ → MiniHeader → List Event → Watcher S W → Outcome S W
  build_chain zero next events w = record { events = events; error = some out_of_fuel; watcher = w }
  build_chain (suc fuel) next events w = elim (stack.peek w.headers) [
    | err e ↦ record { events = []; error = some e; watcher = w }
    | ok none ↦ push_next next events w
    | ok (some latest) ↦ elim (next.parent == latest.hash) [
      | true ↦ push_next next events w
      | false ↦
          let (top, headers') = stack.pop w.headers in
          elim top [
            | err e ↦ record {
              events = events;
              error = some e;
              watcher = record w { headers = headers' };
            }
            | ok _ ↦
                let events' =
                  events ++ record { type = EventType.removed; block_header = latest } ∷ [] in
                let (found, node') = client.header_by_hash next.parent w.node in
                elim found [
                  | err e ↦ record {
                    events = events';
                    error = some e;
                    watcher = record w { headers = headers'; node = node' };
                  }
                  | ok parent ↦
                      let built =
                        build_chain fuel parent events'
                          (record w { headers = headers'; node = node' }) in
                      elim (built.error) [
                        | some e ↦ built
                        | none ↦ push_next next built.events built.watcher
                      ]
                ]
          ]
    ]
  ]

  -- One more round than there are stored headers.
  unfoldable pub chain_fuel : S → ℕ
  chain_fuel headers = elim (stack.peek_all headers) [ ok hs ↦ suc (length hs) | err e ↦ 1 ]

  unfoldable pub build_canonical_chain : MiniHeader → List Event → Watcher S W → Outcome S W
  build_canonical_chain next events w = build_chain (chain_fuel w.headers) next events w
