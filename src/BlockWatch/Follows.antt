-- ===== src/BlockWatch/Follows.antt =====
-- `buildCanonicalChain` keeps its events in step with the stored headers.
use x_mesh.Prelude.{
  ℕ, zero, suc, some, List, [], ◌∷◌, ◌++◌, ◌≡◌, sym, subst, ◌∙◌, ◌==◌, get_last?, drop_last,
  Option-cases, Bool-cases, inl, inr, arith, snoc-cases, some-injective,
}
use x_mesh.Errors.{Result-cases}
use x_mesh.MiniHeader.{MiniHeader}
use x_mesh.BlockWatch.Types.{Event, EventType, Config, Watcher, Outcome}
use x_mesh.BlockWatch.Laws.{StackLaws}
use x_mesh.BlockWatch.Replay.{Replays, Replays-added, Replays-removed}
use x_mesh.BlockWatch.Chain.{add_logs, push_next, build_chain}

module _ {S W : Type 0} (config : Config S W) (laws : StackLaws config.stack) (id : ℕ)
    (base start : List MiniHeader) (sent : List (List Event)) where
  -- The events lead from the headers `start` to the stored ones, the stack is in the period of the
  -- checkpoint `id`, and nothing was sent.
  pub record Follows (events : List Event) (w : Watcher S W) : Type 0 where
    pub replays : Replays laws.limit start events (laws.contents w.headers)
    pub since : laws.Since id base w.headers
    pub quiet : w.sent ≡ sent

  abbrev pub FollowsOutcome : Outcome S W → Type 0
  FollowsOutcome o = Follows o.events o.watcher

  pub push_next-Follows :
      (next : MiniHeader) (events : List Event) (w : Watcher S W)
      → Follows events w
      → FollowsOutcome (push_next config next events w)
  unfolding push_next
  push_next-Follows next events w f = elim (Result-cases (add_logs config next w.node).0) [
    | inr (e, failed) ↦
        rw (failed, push_next) (record { replays = f.replays; since = f.since; quiet = f.quiet })
    | inl (h, found) ↦ elim (Option-cases (config.stack.push h w.headers).0) [
      | inl pushed ↦
          rw (found, pushed, push_next)
            (record {
              replays =
                  rw
                    (laws.push_contents h w.headers (laws.since_valid id base w.headers f.since)
                      pushed)
                    (Replays-added laws.limit start (laws.contents w.headers) events h f.replays);
              since = laws.push_since id base h w.headers f.since;
              quiet = f.quiet;
            })
      | inr (e, refused) ↦
          rw (found, refused, push_next)
            (record {
              replays =
                  rw
                    (laws.push_refused h w.headers e (laws.since_valid id base w.headers f.since)
                      refused)
                    f.replays;
              since = laws.push_since id base h w.headers f.since;
              quiet = f.quiet;
            })
    ]
  ]

  -- The stored headers after a pop.
  pub popped-Follows :
      (latest : MiniHeader) (events : List Event) (w : Watcher S W)
      → get_last? (laws.contents w.headers) ≡ some latest
      → Follows events w
      → Follows
          (events ++ record { type = EventType.removed; block_header = latest } ∷ [])
          (record w { headers = (config.stack.pop w.headers).1 })
  popped-Follows latest events w last f = elim (snoc-cases (laws.contents w.headers)) [
    | inl (_, nil) ↦ absurd (ground arith)
    | inr (top, last', snoc) ↦
        let same = some-injective top latest (sym last' ∙ last) in
        let valid = laws.since_valid id base w.headers f.since in
        record {
          replays = rw (laws.pop_contents w.headers valid) (
              Replays-removed laws.limit start (drop_last (laws.contents w.headers)) events latest (
                subst
                  (λ h.
                    Replays laws.limit start events (drop_last (laws.contents w.headers) ++ h ∷ []))
                  same (subst (λ hs. Replays laws.limit start events hs) snoc f.replays)));
          since = laws.pop_since id base w.headers f.since;
          quiet = f.quiet;
        }
  ]

  pub node-Follows :
      {events : List Event} {w : Watcher S W} (node : W)
      → Follows events w
      → Follows events (record w { node = node })
  node-Follows node f = record { replays = f.replays; since = f.since; quiet = f.quiet }

  pub build_chain-Follows :
      (fuel : ℕ) (next : MiniHeader) (events : List Event) (w : Watcher S W)
      → Follows events w
      → FollowsOutcome (build_chain config fuel next events w)
  unfolding build_chain
  build_chain-Follows zero next events w f = f
  build_chain-Follows (suc fuel) next events w f =
      let peeked = laws.peek_last w.headers (laws.since_valid id base w.headers f.since) in
      elim (Option-cases (get_last? (laws.contents w.headers))) [
        | inl empty ↦ rw (peeked, empty, build_chain) (push_next-Follows next events w f)
        | inr (latest, last) ↦ elim (Bool-cases (next.parent == latest.hash)) [
          | inl joined ↦ rw (peeked, last, joined, build_chain) (push_next-Follows next events w f)
          | inr forked ↦
              let popped = laws.pop_last w.headers (laws.since_valid id base w.headers f.since) in
              let f' = popped-Follows latest events w last f in
              elim (Result-cases (config.client.header_by_hash next.parent w.node).0) [
                | inr (e, missing) ↦
                    rw (peeked, last, forked, popped, missing, build_chain) (node-Follows _ f')
                | inl (parent, found) ↦
                    let w' = record w {
                      headers = (config.stack.pop w.headers).1;
                      node = (config.client.header_by_hash next.parent w.node).1;
                    } in
                    let events' =
                      events ++ record { type = EventType.removed; block_header = latest } ∷ [] in
                    let built = build_chain config fuel parent events' w' in
                    let ih = build_chain-Follows fuel parent events' w' (node-Follows _ f') in
                    elim (Option-cases built.error) [
                      | inl done ↦
                          rw (peeked, last, forked, popped, found, done, build_chain)
                            (push_next-Follows next built.events built.watcher ih)
                      | inr (e, failed) ↦
                          rw (peeked, last, forked, popped, found, failed, build_chain) ih
                    ]
              ]
        ]
      ]
