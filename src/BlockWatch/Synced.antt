-- ===== src/BlockWatch/Synced.antt =====
-- `SyncToLatestBlock`: what was sent tells exactly how the stored headers changed.
use x_mesh.Prelude.{
  ℕ, zero, suc, ◌<◌, Bool, false, Option, none, some, List, [], ◌∷◌, ◌++◌, ◌≡◌, ◌≢◌, refl, sym, ap,
  subst, ◌∙◌, ◌==◌, leb, get_last?, Option-cases, Bool-cases, inl, inr, arith, snoc-cases, IsSuffix,
}
use x_mesh.Errors.{Error, ok, Result-cases}
use x_mesh.MiniHeader.{MiniHeader}
use x_mesh.BlockWatch.Types.{Event, Config, Watcher, Outcome}
use x_mesh.BlockWatch.Laws.{StackLaws}
use x_mesh.BlockWatch.Replay.{Replays, Replays-append}
use x_mesh.BlockWatch.Follows.{Follows, FollowsOutcome, build_chain-Follows}
use x_mesh.BlockWatch.Chain.{build_canonical_chain}
use x_mesh.BlockWatch.Sync.{
  max_blocks_stored_in_non_archive_node, should_revert_changes, num_blocks_to_fetch, next_header,
  sync_rounds, finish_sync, sync_from, sync_to_latest_block,
}

module _ {S W : Type 0} (config : Config S W) (laws : StackLaws config.stack) where
  open config use {stack, client}

  -- If a header was stored before, the last event of the batch is of a block with a higher number.
  abbrev pub Advances : List MiniHeader → List Event → Type 0
  Advances before batch =
      (stored : MiniHeader)
      → get_last? before ≡ some stored
      → (newest : Event) × (get_last? batch ≡ some newest)
        × (stored.number < newest.block_header.number)

  -- Nothing was sent, and the stored headers are the oldest or all of those before; or one batch was
  -- sent, which leads from the headers before to those after, and whose last event is of a block with a higher
  -- number.
  pub data Synced (w w' : Watcher S W) : Type 0 where
    kept_quiet :
        w'.sent ≡ w.sent
        → IsSuffix (laws.contents w'.headers) (laws.contents w.headers)
        → Synced w w'
    sent_batch :
        (batch : List Event)
        → w'.sent ≡ w.sent ++ batch ∷ []
        → Replays laws.limit (laws.contents w.headers) batch (laws.contents w'.headers)
        → Advances (laws.contents w.headers) batch
        → Synced w w'

  module _ (id : ℕ) (base start : List MiniHeader) (sent : List (List Event)) where
    round-Follows :
        (header : MiniHeader) (all_events : List Event) (w : Watcher S W)
        → Follows config laws id base start sent all_events w
        → Follows config laws id base start sent
            (all_events ++ (build_canonical_chain config header [] w).events)
            (build_canonical_chain config header [] w).watcher
    unfolding build_canonical_chain
    round-Follows header all_events w f =
        let here = laws.contents w.headers in
        let round =
          build_chain-Follows config laws id base here sent _ header [] w
            (record { replays = refl; since = f.since; quiet = f.quiet }) in
        record {
          replays = Replays-append laws.limit start here _ all_events _ f.replays round.replays;
          since = round.since;
          quiet = round.quiet;
        }

    pub sync_rounds-Follows :
        (n : ℕ) (only : Bool) (latest : MiniHeader) (all_events : List Event) (w : Watcher S W)
        → Follows config laws id base start sent all_events w
        → FollowsOutcome config laws id base start sent
            (sync_rounds config n only latest all_events w)
    unfolding sync_rounds
    sync_rounds-Follows zero only latest all_events w f = f
    sync_rounds-Follows (suc n) only latest all_events w f =
        let w' = record w { node = (next_header config only latest w).1 } in
        let f' : Follows config laws id base start sent all_events w' = record {
          replays = f.replays;
          since = f.since;
          quiet = f.quiet;
        } in
        elim (Result-cases (next_header config only latest w).0) [
          | inr (e, failed) ↦ rw (failed, sync_rounds) f'
          | inl (header, found) ↦
              let built = build_canonical_chain config header [] w' in
              let round = round-Follows header all_events w' f' in
              elim (Option-cases built.error) [
                | inr (e, failed) ↦ rw (found, failed, sync_rounds) round
                | inl done ↦
                    rw (found, done, sync_rounds)
                      (sync_rounds-Follows n only latest (all_events ++ built.events) built.watcher
                        round)
              ]
        ]

  advances :
      (before : List MiniHeader) (batch : List Event)
      → batch ≢ []
      → should_revert_changes (get_last? before) batch ≡ false
      → Advances before batch
  unfolding should_revert_changes
  advances before batch some_event keep stored last = elim (snoc-cases batch) [
    | inl (nil, _) ↦ absurd (some_event nil)
    | inr (newest, last', _) ↦ (newest, last', ground arith)
  ]

  -- What a synchronisation promises of the watcher that it leaves.
  abbrev pub SyncedValid : Watcher S W → Option Error × Watcher S W → Type 0
  SyncedValid w r = Synced w r.1 × laws.IsValid r.1.headers

  finish_sync_events :
      (id : ℕ) (w : Watcher S W) (events : List Event) (error : Option Error) (v : Watcher S W)
      → Follows config laws id (laws.contents w.headers) (laws.contents w.headers) w.sent events v
      → SyncedValid w (
          finish_sync config id
            (get_last? (laws.contents w.headers))
            (record { events = events; error = error; watcher = v }))
  unfolding finish_sync
  finish_sync_events id w [] error v f = (
    kept_quiet f.quiet ([], f.replays),
    laws.since_valid id (laws.contents w.headers) v.headers f.since,
  )
  finish_sync_events id w (e ∷ es) error v f =
      let before = laws.contents w.headers in
      let valid = laws.since_valid id before v.headers f.since in
      elim (Bool-cases (should_revert_changes (get_last? before) (e ∷ es))) [
        | inl revert ↦
            let (done, valid', suffix) = laws.reset_since id before v.headers f.since in
            rw (revert, done, finish_sync) (kept_quiet f.quiet suffix, valid')
        | inr keep ↦
            let (id', given, since, same) = laws.checkpoint_since v.headers valid in
            rw (keep, given, finish_sync)
              (
                sent_batch (e ∷ es) (ap (λ l. l ++ (e ∷ es) ∷ []) f.quiet)
                    (subst (λ hs. Replays laws.limit before (e ∷ es) hs) (sym same) f.replays)
                    (advances before (e ∷ es) (λ nil. cc) keep),
                laws.since_valid id' (laws.contents v.headers) (stack.checkpoint v.headers).1 since,
              )
      ]

  finish_sync-Synced :
      (id : ℕ) (w : Watcher S W) (o : Outcome S W)
      → FollowsOutcome config laws id (laws.contents w.headers) (laws.contents w.headers) w.sent o
      → SyncedValid w (finish_sync config id (get_last? (laws.contents w.headers)) o)
  finish_sync-Synced id w o f = finish_sync_events id w o.events o.error o.watcher f

  sync_from-Synced :
      (id : ℕ) (latest : MiniHeader) (w v : Watcher S W)
      → Follows config laws id (laws.contents w.headers) (laws.contents w.headers) w.sent [] v
      → SyncedValid w (sync_from config id latest (get_last? (laws.contents w.headers)) v)
  unfolding sync_from
  sync_from-Synced id latest w v f =
      let before = laws.contents w.headers in
      let n = num_blocks_to_fetch latest (get_last? before) in
      let unchanged = finish_sync_events id w [] none v f in
      elim (Bool-cases (n == 0)) [
        | inl idle ↦ rw (idle, sync_from) (unfold finish_sync in unchanged)
        | inr busy ↦ elim (Bool-cases (leb max_blocks_stored_in_non_archive_node n)) [
          | inl far ↦ rw (busy, far, sync_from) (unfold finish_sync in unchanged)
          | inr near ↦
              rw (busy, near, sync_from)
                (finish_sync-Synced id w _
                  (sync_rounds-Follows id before before w.sent n (n == 1) latest [] v f))
        ]
      ]

  -- If the stack of the configuration obeys the laws of a stack of headers, then from a valid
  -- one, whatever the node answers and whether or not an error comes back, a synchronisation
  -- leaves a valid stack, and either sends nothing and leaves the stored headers or their newest
  -- part, or sends one batch of events that leads from the headers before to those after, and
  -- whose last event, which adds or removes a block, is of a block with a higher number than the
  -- last one stored before, if there was one.
  pub sync_to_latest_block-Synced :
      (w : Watcher S W) → laws.IsValid w.headers → SyncedValid w (sync_to_latest_block config w)
  unfolding sync_to_latest_block
  sync_to_latest_block-Synced w valid =
      let (id, given, since, same) = laws.checkpoint_since w.headers valid in
      let headers' = (stack.checkpoint w.headers).1 in
      let v = record w { headers = headers'; node = (client.header_by_number none w.node).1 } in
      let valid' = laws.since_valid id (laws.contents w.headers) headers' since in
      let f : Follows config laws id (laws.contents w.headers) (laws.contents w.headers) w.sent []
          v =
        record { replays = sym same; since = since; quiet = refl } in
      let peeked : stack.peek headers' ≡ ok (get_last? (laws.contents w.headers)) =
        laws.peek_last headers' valid' ∙ ap (λ hs. ok (get_last? hs)) same in
      elim (Result-cases (client.header_by_number none w.node).0) [
        | inr (e, failed) ↦
            rw (given, failed, sync_to_latest_block)
              (unfold finish_sync in finish_sync_events id w [] none v f)
        | inl (latest, found) ↦
            rw (given, found, peeked, sync_to_latest_block) (sync_from-Synced id latest w v f)
      ]
