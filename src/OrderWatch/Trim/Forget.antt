-- ===== src/OrderWatch/Trim/Forget.antt =====
-- `trimOrdersAndGenerateEvents` of zeroex/orderwatch/order_watcher.go. The caller computes the target,
-- 0.9 times the maximum in floating-point numbers, and reads the clock, for the
-- events and for the reset of the counter.
use x_mesh.Prelude.{ℕ, Bool, Option, none, some, List, [], ◌∷◌, ◌++◌, ltb, if◌then◌else◌}
use x_mesh.Errors.{Error, ok, err}
use x_mesh.Db.Escape.{Bytes}
use x_mesh.Db.Transaction.{Call, returns, blocks, Db}
use x_mesh.Db.Query.{Slice, Iterator}
use x_mesh.Orders.{OrderEvent, es_stopped_watching}
use x_mesh.AssetData.{Abi}
use x_mesh.ExpirationWatch.{remove_item}
use x_mesh.SlowCounter.{SlowCounter, BigFloat, reset_counter}
use x_mesh.OrderWatch.{Order, Setting, expiration_of}
use x_mesh.OrderWatch.Contracts.{Contracts, remove_asset_data}
use x_mesh.OrderWatch.Trim.{Trimmed, trim_orders_by_expiration_time}

-- The in-memory state of the order watcher that adding orders and trimming change. `saved` is what
-- `saveMaxExpirationTime` was called with, in order.
pub record Memory (T F : Type 0) : Type 0 where
  pub tree : T
  pub contracts : Contracts
  pub known_exchanges : ℕ → Bool
  pub max_expiration_time : ℕ
  pub max_expiration_counter : SlowCounter F
  pub saved : List ℕ

abbrev pub stopped_event : ℕ → Order → OrderEvent
stopped_event now order = record {
  timestamp = now;
  order_hash = order.hash;
  signed_order = order.signed_order;
  fillable_taker_asset_amount = order.fillable_taker_asset_amount;
  end_state = es_stopped_watching;
  contract_events = [];
}

-- what the loop changes
abbrev pub Forgotten : Type 0 → Type 0
Forgotten T = Option Error × (List OrderEvent × (T × Contracts))

abbrev pub after_removal :
    {T : Type 0}
    → Option Error × Contracts
    → List OrderEvent
    → T
    → (Contracts → Forgotten T)
    → Forgotten T
after_removal (some e, contracts) events tree rest = (some e, (events, (tree, contracts)))
after_removal (none, contracts) events tree rest = rest contracts

module _ {T Store : Type 0} (s : Setting T Store) (abi : Abi) (now : ℕ) where
  -- the loop over the removed orders
  unfoldable pub forget_orders : List Order → List OrderEvent → T → Contracts → Forgotten T
  unfolding expiration_of remove_item remove_asset_data
  forget_orders [] events tree contracts = (none, (events, (tree, contracts)))
  forget_orders (order ∷ orders) events tree contracts =
      let events' = events ++ stopped_event now order ∷ [] in
      let tree' =
        remove_item s.rb_tree (expiration_of order.signed_order) (s.hex order.hash) tree in
      after_removal (remove_asset_data abi order.signed_order.maker_asset_data contracts) events'
        tree' (λ contracts'. forget_orders orders events' tree' contracts')

module _ {T Store F : Type 0} (s : Setting T Store) (abi : Abi) (now reset_at : ℕ)
    (float : BigFloat F) where
  unfoldable pub lower_maximum : ℕ → Memory T F → Memory T F
  unfolding reset_counter
  lower_maximum new_max w =
      if ltb new_max w.max_expiration_time
      then record w {
        max_expiration_time = new_max;
        max_expiration_counter = reset_counter float new_max reset_at w.max_expiration_counter;
        saved = w.saved ++ new_max ∷ [];
      }
      else w

  -- behind the loop
  unfoldable pub finish :
      ℕ → Forgotten T → Memory T F → (Option Error × List OrderEvent) × Memory T F
  unfolding lower_maximum
  finish new_max (some e, (events, (tree, contracts))) w =
      ((some e, events), record w { tree = tree; contracts = contracts })
  finish new_max (none, (events, (tree, contracts))) w =
      ((none, events), lower_maximum new_max (record w { tree = tree; contracts = contracts }))

  -- behind the trimming of the database
  unfoldable pub forget_trimmed :
      Trimmed → Memory T F → (Option Error × List OrderEvent) × Memory T F
  unfolding forget_orders finish
  forget_trimmed (err e) w = ((some e, []), w)
  forget_trimmed (ok (new_max, removed)) w =
      finish new_max (forget_orders s abi now removed [] w.tree w.contracts) w

  unfoldable pub trim_orders_and_generate_events :
      (Slice → Iterator)
      → (ℕ → Bytes)
      → (ℕ → Bytes)
      → ℕ
      → Db Store
      → Memory T F
      → Call (((Option Error × List OrderEvent) × Memory T F) × Db Store)
  unfolding trim_orders_by_expiration_time forget_trimmed
  trim_orders_and_generate_events iterate digits hash_bytes target db w =
      elim (trim_orders_by_expiration_time s iterate digits hash_bytes target db) [
        | blocks ↦ blocks
        | returns (trimmed, db') ↦ returns (forget_trimmed trimmed w, db')
      ]
