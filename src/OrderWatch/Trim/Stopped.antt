-- ===== src/OrderWatch/Trim/Stopped.antt =====
-- What the order watcher's part of trimming does for the orders that it is given
-- (`trimOrdersAndGenerateEvents` of zeroex/orderwatch/order_watcher.go).
use x_mesh.Prelude.{
  ℕ, ◌≤◌, ◌≡◌, refl, ap, sym, subst, ◌∙◌, inl, inr, true, false, Option, none, some, List, [], ◌∷◌,
  ◌++◌, map, All, ltb, ◌==◌, ==_refl, Bool-cases, append_assoc, append-nil, arith,
}
use x_mesh.Errors.{Error, ok}
use x_mesh.Orders.{OrderEvent}
use x_mesh.AssetData.{Abi}
use x_mesh.StringSet.{contains}
use x_mesh.StringSet.Membership.{contains-remove_from_set, contains-remove_from_set_absent}
use x_mesh.ExpirationWatch.{RbTreeLaws, unix, remove_item}
use x_mesh.ExpirationWatch.Watched.{remove_item-watched}
use x_mesh.SlowCounter.{BigFloat}
use x_mesh.OrderWatch.{Order, Setting, expiration_of}
use x_mesh.OrderWatch.Contracts.{Contracts, remove_asset_data}
use x_mesh.OrderWatch.Watching.{watched_for, is_watched}
use x_mesh.OrderWatch.Trim.Forget.{
  Memory, Forgotten, after_removal, forget_orders, lower_maximum, finish, forget_trimmed,
  stopped_event,
}

module _ {T Store : Type 0} (s : Setting T Store) (laws : RbTreeLaws s.rb_tree) where
  abbrev without : Order → T → T
  without o tree = remove_item s.rb_tree (expiration_of o.signed_order) (s.hex o.hash) tree

  without_self : (o : Order) (tree : T) → is_watched s laws (without o tree) o ≡ false
  without_self o tree =
      ap (λ ids. contains ids (s.hex o.hash))
        (remove_item-watched s.rb_tree laws exp (s.hex o.hash) tree (unix exp)
          ∙ rw (==_refl (unix exp)) refl)
      ∙ contains-remove_from_set (s.hex o.hash) (watched_for s laws tree o)
    where
      exp : ℕ
      exp = expiration_of o.signed_order

  without_absent :
      (o x : Order) (tree : T)
      → is_watched s laws tree x ≡ false
      → is_watched s laws (without o tree) x ≡ false
  without_absent o x tree h =
      ap (λ ids. contains ids (s.hex x.hash))
        (remove_item-watched s.rb_tree laws (expiration_of o.signed_order) (s.hex o.hash) tree
          (unix (expiration_of x.signed_order)))
      ∙ elim (Bool-cases
          (unix (expiration_of o.signed_order) == unix (expiration_of x.signed_order))) [
            | inl e ↦ rw e (
                contains-remove_from_set_absent (s.hex o.hash) (s.hex x.hash)
                  (watched_for s laws tree x) h)
            | inr e ↦ rw e h
          ]

  module _ (abi : Abi) (now : ℕ) where
    abbrev Unwatched : Order → Forgotten T → Type 0
    Unwatched x f = is_watched s laws f.1.1.0 x ≡ false

    after_removal-Unwatched :
        (x : Order) (events : List OrderEvent) (tree : T) (next : Contracts → Forgotten T)
        (failed : Option Error × Contracts)
        → is_watched s laws tree x ≡ false
        → ((contracts : Contracts) → Unwatched x (next contracts))
        → Unwatched x (after_removal failed events tree next)
    after_removal-Unwatched x events tree next (some e, contracts) h k = h
    after_removal-Unwatched x events tree next (none, contracts) h k = k contracts

    forget_orders-Unwatched :
        (x : Order) (orders : List Order) (events : List OrderEvent) (tree : T)
        (contracts : Contracts)
        → is_watched s laws tree x ≡ false
        → Unwatched x (forget_orders s abi now orders events tree contracts)
    unfolding forget_orders
    forget_orders-Unwatched x [] events tree contracts h = h
    forget_orders-Unwatched x (o ∷ orders) events tree contracts h =
        let events' = events ++ stopped_event now o ∷ [] in
        let tree' = without o tree in
        after_removal-Unwatched x events' tree'
          (λ contracts'. forget_orders s abi now orders events' tree' contracts')
          (remove_asset_data abi o.signed_order.maker_asset_data contracts)
          (without_absent o x tree h)
          (λ contracts'.
            forget_orders-Unwatched x orders events' tree' contracts' (without_absent o x tree h))

    -- What the loop comes to when it meets no error.
    abbrev Forgets : List Order → List OrderEvent → Forgotten T → Type 0
    Forgets orders events f =
        (f.1.0 ≡ events ++ map (stopped_event now) orders) × All (λ o. Unwatched o f) orders

    forget_orders-Forgets :
        (orders : List Order) (events : List OrderEvent) (tree : T) (contracts : Contracts)
        → (forget_orders s abi now orders events tree contracts).0 ≡ none
        → Forgets orders events (forget_orders s abi now orders events tree contracts)
    unfolding forget_orders
    forget_orders-Forgets [] events tree contracts h = (sym (append-nil events), tt)
    forget_orders-Forgets (o ∷ orders) events tree contracts h =
        let events' = events ++ stopped_event now o ∷ [] in
        let tree' = without o tree in
        after o orders events tree'
          (λ contracts'. forget_orders s abi now orders events' tree' contracts')
          (remove_asset_data abi o.signed_order.maker_asset_data contracts)
          (λ contracts'. forget_orders-Forgets orders events' tree' contracts')
          (λ contracts'.
            forget_orders-Unwatched o orders events' tree' contracts' (without_self o tree))
          h
      where
        after :
            (o : Order) (orders : List Order) (events : List OrderEvent) (tree : T)
            (next : Contracts → Forgotten T) (failed : Option Error × Contracts)
            → ((contracts : Contracts)
                → (next contracts).0 ≡ none
                → Forgets orders (events ++ stopped_event now o ∷ []) (next contracts))
            → ((contracts : Contracts) → Unwatched o (next contracts))
            → (after_removal failed (events ++ stopped_event now o ∷ []) tree next).0 ≡ none
            → Forgets
                (o ∷ orders)
                events
                (after_removal failed (events ++ stopped_event now o ∷ []) tree next)
        after o orders events tree next (some e, contracts) forgets first h = cc
        after o orders events tree next (none, contracts) forgets first h =
            let (all_events, others) = forgets contracts h in
            (
              all_events
                  ∙ append_assoc events (stopped_event now o ∷ []) (map (stopped_event now) orders),
              (first contracts, others),
            )

    module _ {F : Type 0} (reset_at : ℕ) (float : BigFloat F) where
      lower_maximum-bound :
          (new_max : ℕ) (w : Memory T F)
          → ((lower_maximum s abi now reset_at float new_max w).tree ≡ w.tree)
            × ((lower_maximum s abi now reset_at float new_max w).max_expiration_time ≤ new_max)
            × ((lower_maximum s abi now reset_at float new_max w).max_expiration_time
                ≤ w.max_expiration_time)
      unfolding lower_maximum
      lower_maximum-bound new_max w = elim (Bool-cases (ltb new_max w.max_expiration_time)) [
        | inl e ↦ rw e (refl, omega arith, least new_max w.max_expiration_time e)
        | inr e ↦ rw e (refl, most new_max w.max_expiration_time e, omega arith)
      ]
        where
          least : (m n : ℕ) → ltb m n ≡ true → m ≤ n
          least m n e = ground arith

          most : (m n : ℕ) → ltb m n ≡ false → n ≤ m
          most m n e = ground arith

      -- An event for each of the orders, none of them watched, and a maximum that did not rise and is
      -- at most the new one.
      abbrev pub Stops : List Order → ℕ → ℕ → (Option Error × List OrderEvent) × Memory T F → Type 0
      Stops removed new_max old_max r =
          (r.0.1 ≡ map (stopped_event now) removed)
          × All (λ o. is_watched s laws r.1.tree o ≡ false) removed
          × (r.1.max_expiration_time ≤ new_max)
          × (r.1.max_expiration_time ≤ old_max)

      finish-Stops :
          (removed : List Order) (new_max : ℕ) (f : Forgotten T) (w : Memory T F)
          → (f.0 ≡ none → Forgets removed [] f)
          → (finish s abi now reset_at float new_max f w).0.0 ≡ none
          → Stops removed new_max w.max_expiration_time
              (finish s abi now reset_at float new_max f w)
      unfolding finish
      finish-Stops removed new_max (some e, (events, (tree, contracts))) w forgets h = cc
      finish-Stops removed new_max (none, (events, (tree, contracts))) w forgets h =
          let w' = record w { tree = tree; contracts = contracts } in
          let (same, below_new, below_old) = lower_maximum-bound new_max w' in
          let (all_events, unwatched) = forgets refl in
          (
            all_events,
            subst (λ t. All (λ o. is_watched s laws t o ≡ false) removed) (sym same) unwatched,
            below_new,
            below_old,
          )

      -- If the tree is a map with keys in order, then trimming that meets no error behind the
      -- database emits one event for each order it is given, in their order, that the order is no
      -- longer watched; none of these orders is watched any more for the expiration it is given
      -- with; and the maximum expiration time has not risen and is at most the new one.
      pub forget_trimmed-Stops :
          (removed : List Order) (new_max : ℕ) (w : Memory T F)
          → (forget_trimmed s abi now reset_at float (ok (new_max, removed)) w).0.0 ≡ none
          → Stops removed new_max w.max_expiration_time
              (forget_trimmed s abi now reset_at float (ok (new_max, removed)) w)
      unfolding forget_trimmed
      forget_trimmed-Stops removed new_max w h =
          finish-Stops removed new_max (forget_orders s abi now removed [] w.tree w.contracts) w
            (forget_orders-Forgets removed [] w.tree w.contracts) h
