-- ===== src/OrderWatch/Headers.antt =====
-- `updateBlockHeadersStoredInDB` of zeroex/orderwatch/order_watcher.go: the block events of a batch
-- become insertions and deletions of one transaction on the stored headers. A map from hashes to headers
-- is a list of pairs, whose order stands for Go's order of the map. The two types of events are
-- all that the block watcher sends.
pub mod Net
use x_mesh.Prelude.{ℕ, Bool, true, false, List, [], ◌∷◌, ◌++◌, ◌==◌, if◌then◌else◌}
use x_mesh.MiniHeader.{MiniHeader}
use x_mesh.BlockWatch.Types.{Event, EventType, added, removed}
use x_mesh.Db.Keys.{ColInfo}
use x_mesh.Db.Ldb.{Ldb, Codec}
use x_mesh.Db.Transaction.{returns, blocks, Db, Transaction, queue_insert, queue_delete}

abbrev pub Headers : Type 0
Headers = List (ℕ × MiniHeader)

abbrev pub has : ℕ → Headers → Bool
has hash [] = false
has hash ((key, header) ∷ headers) =
    let rest = has hash headers in if key == hash then true else rest

abbrev pub delete_key : ℕ → Headers → Headers
delete_key hash [] = []
delete_key hash ((key, header) ∷ headers) =
    let rest = delete_key hash headers in if key == hash then rest else (key, header) ∷ rest

-- `blocksToAdd` and `blocksToRemove`
pub record Blocks : Type 0 where
  pub to_add : Headers
  pub to_remove : Headers

-- The body of the loop over the events. A key is set only where it is missing.
unfoldable pub sort_event : EventType → MiniHeader → Blocks → Blocks
sort_event added header m = if has header.hash m.to_add then m else record {
  to_add = (header.hash, header) ∷ m.to_add;
  to_remove = delete_key header.hash m.to_remove;
}
sort_event removed header m = record {
  to_add = delete_key header.hash m.to_add;
  to_remove =
      if has header.hash m.to_remove then m.to_remove else (header.hash, header) ∷ m.to_remove;
}

unfoldable pub sort_events : List Event → Blocks → Blocks
unfolding sort_event
sort_events [] m = m
sort_events (event ∷ events) m = sort_events events (sort_event event.type event.block_header m)

module _ {Store : Type 0} (codec : Codec MiniHeader) (ldb : Ldb Store) (info : ColInfo MiniHeader)
    (db : Db Store) where
  -- The two loops over the maps: an error is logged only. The transaction's own mutex is free
  -- between two calls, so that `blocks` does not come up.
  unfoldable pub insert_headers : Headers → Transaction → Transaction
  insert_headers [] txn = txn
  insert_headers ((key, header) ∷ headers) txn = elim (queue_insert codec ldb info db header txn) [
    | returns (_, txn') ↦ insert_headers headers txn'
    | blocks ↦ txn
  ]

  unfoldable pub delete_headers : Headers → Transaction → Transaction
  delete_headers [] txn = txn
  delete_headers ((key, header) ∷ headers) txn =
      elim (queue_delete codec ldb info db (codec.id header) txn) [
        | returns (_, txn') ↦ delete_headers headers txn'
        | blocks ↦ txn
      ]

  unfoldable pub update_block_headers_stored_in_db : List Event → Transaction → Transaction
  unfolding sort_events insert_headers delete_headers
  update_block_headers_stored_in_db events txn =
      let m = sort_events events (record { to_add = []; to_remove = [] }) in
      delete_headers m.to_remove (insert_headers m.to_add txn)
