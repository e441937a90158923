-- ===== src/BlockWatch/FastSync/Effect.antt =====
-- `FastSyncToLatestBlock`: what becomes of the stored headers and of the subscribers.
use x_mesh.Prelude.{
  ℕ, ◌+◌, ◌<◌, ◌≡◌, ◌⊎◌, refl, ap, ◌∙◌, Bool, false, none, some, List, [], ◌∷◌, ◌++◌, ltb,
  get_last?, Bool-cases, Option-cases, inl, inr, arith, kept,
}
use x_mesh.Prelude.Int.{ℤ, shift, sub_ℕ, is_zero, lt_ℕ}
use x_mesh.Errors.{Result, ok, err, Result-cases}
use x_mesh.MiniHeader.{Log, MiniHeader}
use x_mesh.BlockWatch.Types.{Event, Config, Watcher}
use x_mesh.BlockWatch.Laws.{StackLaws}
use x_mesh.BlockWatch.Sync.{max_blocks_stored_in_non_archive_node}
use x_mesh.BlockWatch.Logs.{get_logs_in_block_range}
use x_mesh.BlockWatch.FastSync.{
  restart_stack, backfill_events, get_missed_events_to_backfill, send_some, after_backfill,
  fast_sync_from, fast_sync_to_latest_block,
}

module _ {S W : Type 0} (config : Config S W) (laws : StackLaws config.stack) where
  open config use {stack, client}

  -- The stored headers stay, or are dropped, or are replaced by a single one.
  pub data Restarted (before after : List MiniHeader) : Type 0 where
    same : after ≡ before → Restarted before after
    cleared : after ≡ [] → Restarted before after
    single : (h : MiniHeader) → after ≡ h ∷ [] → Restarted before after

  kept-nil : (limit : ℕ) (h : MiniHeader) → 0 < limit → kept limit [] ++ h ∷ [] ≡ h ∷ []
  kept-nil limit h p = ground arith

  abbrev RestartedWatcher : Watcher S W → Watcher S W → Type 0
  RestartedWatcher w w' =
      laws.IsValid w'.headers × Restarted (laws.contents w.headers) (laws.contents w'.headers)

  restart_stack-Restarted :
      (furthest : ℕ) (w : Watcher S W)
      → laws.IsValid w.headers
      → RestartedWatcher w (restart_stack config furthest w).1
  unfolding restart_stack
  restart_stack-Restarted furthest w v =
      let (empty, v1) = laws.clear_contents w.headers v in
      let headers1 = (stack.clear w.headers).1 in
      elim (Option-cases (stack.clear w.headers).0) [
        | inr (e, failed) ↦ rw (failed, restart_stack) (v1, cleared empty)
        | inl done ↦ elim (Result-cases (client.header_by_number (some furthest) w.node).0) [
          | inr (e, failed) ↦ rw (done, failed, restart_stack) (v1, cleared empty)
          | inl (h, found) ↦
              rw (done, found, restart_stack)
                (
                  laws.push_valid h headers1 v1,
                  elim (Option-cases (stack.push h headers1).0) [
                    | inl pushed ↦ single h (
                        laws.push_contents h headers1 v1 pushed
                        ∙ ap (λ hs. kept laws.limit hs ++ h ∷ []) empty
                        ∙ kept-nil laws.limit h laws.limit_positive)
                    | inr (e, refused) ↦ cleared (laws.push_refused h headers1 e v1 refused ∙ empty)
                  ],
                )
        ]
      ]

  -- Without an error the stack holds the one header that it restarts from.
  restart_stack-single :
      (furthest : ℕ) (w : Watcher S W)
      → laws.IsValid w.headers
      → (restart_stack config furthest w).0 ≡ none
      → (h : MiniHeader) × (laws.contents (restart_stack config furthest w).1.headers ≡ h ∷ [])
  unfolding restart_stack
  restart_stack-single furthest w v e =
      let (empty, v1) = laws.clear_contents w.headers v in
      let headers1 = (stack.clear w.headers).1 in
      elim (Option-cases (stack.clear w.headers).0) [
        | inr (x, failed) ↦ let e' = rw (failed, restart_stack) at e in cc
        | inl done ↦ elim (Result-cases (client.header_by_number (some furthest) w.node).0) [
          | inr (x, failed) ↦ let e' = rw (done, failed, restart_stack) at e in cc
          | inl (h, found) ↦
              let pushed : (stack.push h headers1).0 ≡ none =
                rw (done, found, restart_stack) at e in
              (
                h,
                rw (done, found, restart_stack)
                    (laws.push_contents h headers1 v1 pushed
                      ∙ ap (λ hs. kept laws.limit hs ++ h ∷ []) empty
                      ∙ kept-nil laws.limit h laws.limit_positive),
              )
        ]
      ]

  quiet-restart_stack :
      (furthest : ℕ) (w : Watcher S W) → (restart_stack config furthest w).1.sent ≡ w.sent
  unfolding restart_stack
  quiet-restart_stack furthest w = ground arith

  quiet-backfill_events :
      (order : List MiniHeader → List MiniHeader) (ls : List Log) (w : Watcher S W)
      → ((backfill_events config order ls w).1.headers ≡ w.headers)
        × ((backfill_events config order ls w).1.sent ≡ w.sent)
  unfolding backfill_events
  quiet-backfill_events order [] w = (refl, refl)
  quiet-backfill_events order (l ∷ ls) w = ground arith

  -- What a fast synchronisation does: the stack stays valid, its headers stay, are dropped or are replaced by one;
  -- at most one batch of events is sent, and only if the stack restarts from a single header.
  pub record FastSynced (w w' : Watcher S W) : Type 0 where
    pub valid : laws.IsValid w'.headers
    pub restarted : Restarted (laws.contents w.headers) (laws.contents w'.headers)
    pub sent :
        (w'.sent ≡ w.sent)
        ⊎ ((e : Event) × (es : List Event) × (w'.sent ≡ w.sent ++ (e ∷ es) ∷ [])
            × (h : MiniHeader) × (laws.contents w'.headers ≡ h ∷ []))

  unchanged :
      (w w' : Watcher S W)
      → laws.IsValid w.headers
      → w'.headers ≡ w.headers
      → w'.sent ≡ w.sent
      → FastSynced w w'
  unchanged w w' v p q = record {
    valid = rw p v;
    restarted = same (ap laws.contents p);
    sent = inl q;
  }

  -- What the backfill leaves, before its events are sent.
  record Backfilled (w : Watcher S W) (r : Result (List Event) × Watcher S W) : Type 0 where
    valid : laws.IsValid r.1.headers
    restarted : Restarted (laws.contents w.headers) (laws.contents r.1.headers)
    quiet : r.1.sent ≡ w.sent
    single_if :
        (e : Event) (es : List Event)
        → r.0 ≡ ok (e ∷ es)
        → (h : MiniHeader) × (laws.contents r.1.headers ≡ h ∷ [])

  missed-Backfilled :
      (cancelled : W → Bool) (order : List MiniHeader → List MiniHeader) (elapsed : ℤ)
      (retained : ℕ) (w : Watcher S W)
      → laws.IsValid w.headers
      → Backfilled w (get_missed_events_to_backfill config cancelled order elapsed retained w)
  unfolding get_missed_events_to_backfill
  missed-Backfilled cancelled order elapsed retained w v =
      let got =
        get_logs_in_block_range config cancelled (retained + 1) (shift retained elapsed) w.node in
      let w1 = record w { node = got.1 } in
      let furthest = got.0.furthest_block_processed in
      let (v2, restart) = restart_stack-Restarted furthest w1 v in
      let quiet2 = quiet-restart_stack furthest w1 in
      elim (Bool-cases (ltb retained furthest)) [
        | inr behind ↦
            rw (behind, get_missed_events_to_backfill)
              (record { valid = v; restarted = same refl; quiet = refl; single_if = λ e es p. cc })
        | inl ahead ↦ elim (Option-cases (restart_stack config furthest w1).0) [
          | inr (x, failed) ↦
              rw (ahead, failed, get_missed_events_to_backfill)
                (record {
                  valid = v2;
                  restarted = restart;
                  quiet = quiet2;
                  single_if = λ e es p. cc;
                })
          | inl done ↦
              let w2 = (restart_stack config furthest w1).1 in
              let (headers3, sent3) = quiet-backfill_events order got.0.all_logs w2 in
              let (h, one) = restart_stack-single furthest w1 v done in
              rw (ahead, done, get_missed_events_to_backfill)
                (record {
                  valid = rw headers3 v2;
                  restarted = rw headers3 restart;
                  quiet = sent3 ∙ quiet2;
                  single_if = λ e es p. (h, ap laws.contents headers3 ∙ one);
                })
        ]
      ]

  send_some-FastSynced :
      (w : Watcher S W) (events : List Event) (w' : Watcher S W)
      → Backfilled w (ok events, w')
      → FastSynced w (send_some config events w')
  unfolding send_some
  send_some-FastSynced w [] w' b = record {
    valid = b.valid;
    restarted = b.restarted;
    sent = inl b.quiet;
  }
  send_some-FastSynced w (e ∷ es) w' b =
      let (h, one) = b.single_if e es refl in
      record {
        valid = b.valid;
        restarted = b.restarted;
        sent = inr (e, es, ap (λ l. l ++ (e ∷ es) ∷ []) b.quiet, h, one);
      }

  sent-FastSynced :
      (w : Watcher S W) (r : Result (List Event) × Watcher S W) (elapsed : ℤ)
      → Backfilled w r
      → FastSynced w (after_backfill config elapsed r).1
  unfolding after_backfill
  sent-FastSynced w (err e, w') elapsed b = record {
    valid = b.valid;
    restarted = b.restarted;
    sent = inl b.quiet;
  }
  sent-FastSynced w (ok events, w') elapsed b = send_some-FastSynced w events w' b

  fast_sync_from-FastSynced :
      (cancelled : W → Bool) (order : List MiniHeader → List MiniHeader)
      (stored latest : MiniHeader) (w : Watcher S W)
      → laws.IsValid w.headers
      → FastSynced w (fast_sync_from config cancelled order stored latest w).1
  unfolding fast_sync_from
  fast_sync_from-FastSynced cancelled order stored latest w v =
      let elapsed = sub_ℕ latest.number stored.number in
      elim (Bool-cases (is_zero elapsed)) [
        | inl idle ↦ rw (idle, fast_sync_from) (unchanged w w v refl refl)
        | inr some_blocks ↦ elim (Bool-cases (lt_ℕ elapsed max_blocks_stored_in_non_archive_node)) [
          | inl near ↦
              rw (some_blocks, near, fast_sync_from)
                (sent-FastSynced w _ elapsed
                  (missed-Backfilled cancelled order elapsed stored.number w v))
          | inr far ↦
              let (empty, v') = laws.clear_contents w.headers v in
              rw (some_blocks, far, fast_sync_from)
                (record { valid = v'; restarted = cleared empty; sent = inl refl })
        ]
      ]

  -- If the stack of the configuration obeys the laws of a stack of headers, then from a valid
  -- one, whatever the node answers, a fast synchronisation leaves a valid stack, whose headers
  -- are as they were, or dropped, or replaced by a single one. At most one batch of events is
  -- sent, it is not empty, and then the stack holds a single header.
  pub fast_sync_to_latest_block-FastSynced :
      (cancelled : W → Bool) (order : List MiniHeader → List MiniHeader) (w : Watcher S W)
      → laws.IsValid w.headers
      → FastSynced w (fast_sync_to_latest_block config cancelled order w).1
  unfolding fast_sync_to_latest_block
  fast_sync_to_latest_block-FastSynced cancelled order w v =
      let peeked = laws.peek_last w.headers v in
      let w' = record w {
        node = (client.header_by_number none w.node).1;
        was_started_once = false;
      } in
      elim (Bool-cases w.was_started_once) [
        | inl started ↦ simp started (unchanged w w v refl refl)
        | inr fresh ↦ elim (Option-cases (get_last? (laws.contents w.headers))) [
          | inl empty ↦ simp (fresh, peeked, empty) (unchanged w w v refl refl)
          | inr (stored, last) ↦ elim (Result-cases (client.header_by_number none w.node).0) [
            | inr (e, failed) ↦ simp (fresh, peeked, last, failed) (unchanged w w' v refl refl)
            | inl (latest, found) ↦
                let f = fast_sync_from-FastSynced cancelled order stored latest w' v in
                simp (fresh, peeked, last, found)
                  (record { valid = f.valid; restarted = f.restarted; sent = f.sent })
          ]
        ]
      ]
