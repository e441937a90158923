-- ===== src/OrderWatch/Expirations/Expired.antt =====
-- `handleOrderExpirations` (zeroex/orderwatch/order_watcher.go) when the block time moved forward.
use x_mesh.Prelude.{
  ℕ, ◌<◌, ◌≡◌, refl, ap, sym, subst, ◌∙◌, Bool, true, false, Option, none, some, List, [], ◌∷◌,
  ◌++◌, map, ◌==◌, lt→ltb, append_assoc, append-nil, All, All-append, if◌then◌else◌,
}
use x_mesh.Errors.{Error, Result, ok, err}
use x_mesh.Db.Escape.{Bytes}
use x_mesh.Db.Query.{Slice, Iterator}
use x_mesh.StringSet.{remove_from_set}
use x_mesh.Orders.{OrderEvent, es_order_expired}
use x_mesh.ExpirationWatch.{RbTreeLaws, ExpiredItem, unix, prune}
use x_mesh.ExpirationWatch.Watched.{ids_at, is_past, watched, prune-watched, remove_item-watched}
use x_mesh.OrderWatch.{Order, Books, Setting, expiration_of, unwatch_order}
use x_mesh.OrderWatch.Expirations.{
  is_among, find_stored, expired_event, expire_found, expire_all, expire_pruned,
  handle_order_expirations,
}

module _ {T Store : Type 0} (s : Setting T Store) (laws : RbTreeLaws s.rb_tree)
    (iterate : Slice → Iterator) (hex_to_hash : Bytes → ℕ) (hash_bytes : ℕ → Bytes) where
  abbrev stored_order : ℕ → Result Order
  stored_order hash = find_stored s iterate hex_to_hash hash_bytes hash

  abbrev is_ok : Result Order → Bool
  is_ok (ok order) = true
  is_ok (err e) = false

  -- Of the IDs that expired, those to report: they will not be validated again, and are stored.
  abbrev pub reported : List ℕ → List ExpiredItem → List ℕ
  reported to_revalidate [] = []
  reported to_revalidate (item ∷ items) =
      let rest = reported to_revalidate items in
      let hash = hex_to_hash item.id in
      if is_among hash to_revalidate
      then rest
      else if is_ok (stored_order hash)
      then hash ∷ rest
      else rest

  -- a second at which nothing is watched
  abbrev Silent : ℕ → T → Type 0
  Silent key tree = watched s.rb_tree laws tree key ≡ []

  unwatch_order-Silent :
      (order : Order) (amount : ℕ) (b : Books T) (key : ℕ)
      → Silent key b.tree
      → Silent key (unwatch_order s order amount b).1.tree
  unfolding unwatch_order remove_from_set
  unwatch_order-Silent order amount b key h =
      remove_item-watched s.rb_tree laws (expiration_of order.signed_order) (s.hex order.hash)
        b.tree key
      ∙ none_left (unix (expiration_of order.signed_order) == key) (s.hex order.hash)
          (watched s.rb_tree laws b.tree key) h
    where
      none_left :
          (b : Bool) (id : Bytes) (ids : List Bytes)
          → ids ≡ []
          → (if b then remove_from_set id ids else ids) ≡ []
      none_left true id ids e = ap (remove_from_set id) e
      none_left false id ids e = e

  abbrev hashes : List OrderEvent → List ℕ
  hashes events = map (λ e. e.order_hash) events

  abbrev AllExpired : List OrderEvent → Type 0
  AllExpired events = All (λ e. e.end_state ≡ es_order_expired) events

  hashes-append : (xs ys : List OrderEvent) → hashes (xs ++ ys) ≡ hashes xs ++ hashes ys
  hashes-append [] ys = refl
  hashes-append (x ∷ xs) ys = ap (◌∷◌ x.order_hash) (hashes-append xs ys)

  -- From one state of the loop to a later one, with the hashes that were reported.
  abbrev Extends : List OrderEvent × Books T → List ℕ → List OrderEvent × Books T → Type 0
  Extends (events, b) new (events', b') =
      (hashes events' ≡ hashes events ++ new)
      × (AllExpired events → AllExpired events')
      × ((key : ℕ) → Silent key b.tree → Silent key b'.tree)

  module _ (latest : ℕ) where
    abbrev expire_found_at :
        Result Order → ℕ → List OrderEvent × Books T → List OrderEvent × Books T
    expire_found_at r hash done = expire_found s iterate hex_to_hash hash_bytes latest r hash done

    expire_found-Extends :
        (r : Result Order) (hash : ℕ) (events : List OrderEvent) (b : Books T)
        → Extends
            (events, b)
            (if is_ok r then hash ∷ [] else [])
            (expire_found_at r hash (events, b))
    unfolding expire_found
    expire_found-Extends (err e) hash events b =
        (sym (append-nil (hashes events)), λ h. h, λ key h. h)
    expire_found-Extends (ok order) hash events b =
        let (order', b') = unwatch_order s order order.fillable_taker_asset_amount b in
        (
          hashes-append events
              (expired_event s iterate hex_to_hash hash_bytes latest hash order' ∷ []),
          λ h. All-append _ events _ h (refl, tt),
          λ key h. unwatch_order-Silent order order.fillable_taker_asset_amount b key h,
        )

    Extends-trans :
        (first middle last : List OrderEvent × Books T) (new later : List ℕ)
        → Extends first new middle
        → Extends middle later last
        → Extends first (new ++ later) last
    Extends-trans first middle last new later (e, h, q) (e', h', q') = (
      e' ∙ ap (λ xs. xs ++ later) e ∙ append_assoc (hashes first.0) new later,
      λ x. h' (h x),
      λ key x. q' key (q key x),
    )

    abbrev expire_all_at :
        List ℕ → List ExpiredItem → List OrderEvent × Books T → List OrderEvent × Books T
    expire_all_at to_revalidate items done =
        expire_all s iterate hex_to_hash hash_bytes latest to_revalidate items done

    expire_all-Extends :
        (to_revalidate : List ℕ) (items : List ExpiredItem) (done : List OrderEvent × Books T)
        → Extends done (reported to_revalidate items) (expire_all_at to_revalidate items done)
    unfolding expire_all
    expire_all-Extends to_revalidate [] done =
        (sym (append-nil (hashes done.0)), λ h. h, λ key h. h)
    expire_all-Extends to_revalidate (item ∷ items) done =
        step (is_among (hex_to_hash item.id) to_revalidate) (stored_order (hex_to_hash item.id))
          (λ next. expire_all-Extends to_revalidate items next)
      where
        hash : ℕ
        hash = hex_to_hash item.id

        step :
            (skip : Bool) (r : Result Order)
            → ((next : List OrderEvent × Books T)
                → Extends next
                    (reported to_revalidate items)
                    (expire_all_at to_revalidate items next))
            → Extends done
                (if skip
                  then reported to_revalidate items
                  else if is_ok r
                  then hash ∷ reported to_revalidate items
                  else reported to_revalidate items)
                (expire_all_at to_revalidate items
                  (if skip then done else expire_found_at r hash done))
        step true r rest = rest done
        step false (err e) rest =
            Extends-trans done (expire_found_at (err e) hash done)
              (expire_all_at to_revalidate items (expire_found_at (err e) hash done)) []
              (reported to_revalidate items) (expire_found-Extends (err e) hash done.0 done.1)
              (rest (expire_found_at (err e) hash done))
        step false (ok order) rest =
            Extends-trans done (expire_found_at (ok order) hash done)
              (expire_all_at to_revalidate items (expire_found_at (ok order) hash done)) (hash ∷ [])
              (reported to_revalidate items) (expire_found-Extends (ok order) hash done.0 done.1)
              (rest (expire_found_at (ok order) hash done))

    -- There is no error, all events say that an order expired, and they are, in this order, of the IDs
    -- that expired but are not to be validated again and are stored, where the IDs that expired are
    -- exactly those watched for a second that is past; and for no such second is any watched after.
    abbrev pub IsExpiry : List ℕ → T → Option Error → List OrderEvent → T → Type 0
    IsExpiry to_revalidate tree failed events tree' =
        (items : List ExpiredItem) × (failed ≡ none)
        × (map (λ e. e.order_hash) events ≡ reported to_revalidate items)
        × All (λ e. e.end_state ≡ es_order_expired) events
        × ((key : ℕ)
            → (ids_at key items
                ≡ (if is_past latest key then watched s.rb_tree laws tree key else []))
              × ((if is_past latest key then watched s.rb_tree laws tree' key else []) ≡ []))

    nothing_past :
        (past : Bool) (before after later : List Bytes)
        → after ≡ (if past then [] else before)
        → (after ≡ [] → later ≡ [])
        → (if past then later else []) ≡ []
    nothing_past true before after later e h = h e
    nothing_past false before after later e h = refl

    all_expired :
        (fuel previous : ℕ) (to_revalidate : List ℕ) (b : Books T) (items : List ExpiredItem)
        (t' : T)
        → previous < latest
        → prune s.rb_tree fuel latest b.tree ≡ some (items, t')
        → handle_order_expirations s iterate hex_to_hash hash_bytes latest fuel
            (some previous)
            to_revalidate
            b
          ≡ (none, expire_all_at to_revalidate items ([], record b { tree = t' }))
    unfolding handle_order_expirations expire_pruned
    all_expired fuel previous to_revalidate b items t' later pruned =
        let moved = lt→ltb previous latest later in
        rw moved
          (ap (λ r. expire_pruned s iterate hex_to_hash hash_bytes latest r to_revalidate b) pruned)

    -- If the tree is a map with keys in order, with more fuel than it has keys, and if the time
    -- of the latest block is later than that of the one before, then there is no error, all
    -- events say that an order expired, and they are, in this order, of the IDs that expired but
    -- are not to be validated again and are stored, where the IDs that expired are exactly those
    -- watched for a second that lies at or behind the time; and for no such second is anything
    -- watched any more.
    pub handle_order_expirations-expired :
        (fuel previous : ℕ) (to_revalidate : List ℕ) (b : Books T)
        → previous < latest
        → laws.size b.tree < fuel
        → let (failed, (events, b')) =
            handle_order_expirations s iterate hex_to_hash hash_bytes latest fuel
              (some previous)
              to_revalidate
              b in
          IsExpiry to_revalidate b.tree failed events b'.tree
    handle_order_expirations-expired fuel previous to_revalidate b later small =
        let (items, t', pruned, h) = prune-watched s.rb_tree laws fuel latest b.tree small in
        let done = expire_all_at to_revalidate items ([], record b { tree = t' }) in
        let (e, all, silent) =
          expire_all-Extends to_revalidate items ([], record b { tree = t' }) in
        subst (λ r. IsExpiry to_revalidate b.tree r.0 r.1.0 r.1.1.tree)
          (sym (all_expired fuel previous to_revalidate b items t' later pruned))
          (
            items,
            refl,
            e,
            all tt,
            λ key. (
              (h key).0,
              nothing_past (is_past latest key) (watched s.rb_tree laws b.tree key)
                  (watched s.rb_tree laws t' key) (watched s.rb_tree laws done.1.tree key) (h key).1
                  (silent key),
            ),
          )
