-- ===== src/OrderWatch/Trim/Last.antt =====
-- What trimming leaves in the watcher of expiration times
-- (`trimOrdersAndGenerateEvents` of zeroex/orderwatch/order_watcher.go).
use x_mesh.Prelude.{
  ℕ, ◌-◌, ◌<◌, ◌≡◌, ◌≢◌, refl, ap, sym, ◌∙◌, ◌⊎◌, inl, inr, ◌*◌, ◌/◌, true, false, Option, none,
  some, List, [], ◌∷◌, ◌++◌, length, All, ltb, ◌==◌, Bool-cases, get_last?, arith,
}
use x_mesh.Errors.{Error, ok}
use x_mesh.Orders.{OrderEvent}
use x_mesh.AssetData.{Abi}
use x_mesh.StringSet.{contains}
use x_mesh.StringSet.Membership.{contains-remove_from_set_other}
use x_mesh.ExpirationWatch.{RbTreeLaws, nanoseconds, unix, remove_item}
use x_mesh.ExpirationWatch.Watched.{remove_item-watched}
use x_mesh.SlowCounter.{BigFloat}
use x_mesh.OrderWatch.{Order, Setting, expiration_of}
use x_mesh.OrderWatch.Contracts.{Contracts, remove_asset_data}
use x_mesh.OrderWatch.Watching.{watched_for, is_watched}
use x_mesh.OrderWatch.Trim.{
  lowered, lower_last, Trimmed, with_maximum, unless_pinned, trimmed_result,
}
use x_mesh.OrderWatch.Trim.Forget.{
  Memory, Forgotten, after_removal, forget_orders, lower_maximum, finish, forget_trimmed,
  stopped_event,
}

-- Orders with different hashes, or with expirations in different seconds.
abbrev Apart : Order → Order → Type 0
Apart x o =
    (x.hash ≢ o.hash)
    ⊎ ((unix (expiration_of o.signed_order) == unix (expiration_of x.signed_order)) ≡ false)

lowered-Apart : (x : Order) → 0 < x.signed_order.expiration_time_seconds → Apart x (lowered x)
unfolding unix expiration_of lowered
lowered-Apart x positive = inr (differs x.signed_order.expiration_time_seconds positive)
  where
    differs :
        (n : ℕ)
        → 0 < n
        → (((n - 1) * nanoseconds) / nanoseconds == (n * nanoseconds) / nanoseconds) ≡ false
    differs n positive = ground arith

lower_last-Apart :
    (x : Order) (rest : List Order)
    → 0 < x.signed_order.expiration_time_seconds
    → All (λ o. x.hash ≢ o.hash) rest
    → All (Apart x) (lower_last (rest ++ x ∷ []))
unfolding lower_last
lower_last-Apart x [] positive others = (lowered-Apart x positive, tt)
lower_last-Apart x (o ∷ []) positive (differs, _) = (inl differs, (lowered-Apart x positive, tt))
lower_last-Apart x (o ∷ o' ∷ rest) positive (differs, others) =
    (inl differs, lower_last-Apart x (o' ∷ rest) positive others)

module _ {T Store : Type 0} (s : Setting T Store) (laws : RbTreeLaws s.rb_tree)
    (hex_injective : (a b : ℕ) → s.hex a ≡ s.hex b → a ≡ b) where
  removed-Apart :
      (x o : Order) (tree : T)
      → Apart x o
      → is_watched s laws
          (remove_item s.rb_tree (expiration_of o.signed_order) (s.hex o.hash) tree)
          x
        ≡ is_watched s laws tree x
  removed-Apart x o tree apart =
      ap (λ ids. contains ids (s.hex x.hash))
        (remove_item-watched s.rb_tree laws (expiration_of o.signed_order) (s.hex o.hash) tree
          (unix (expiration_of x.signed_order)))
      ∙ elim (Bool-cases
          (unix (expiration_of o.signed_order) == unix (expiration_of x.signed_order))) [
            | inr e ↦ rw e refl
            | inl e ↦ elim apart [
              | inl differs ↦ rw e (
                  contains-remove_from_set_other (s.hex o.hash) (s.hex x.hash)
                    (watched_for s laws tree x)
                    (λ same. differs (hex_injective x.hash o.hash (sym same))))
              | inr apart' ↦ let bad = (sym e ∙ apart') in cc
            ]
          ]

  module _ (abi : Abi) (now : ℕ) where
    forget_orders-Apart :
        (x : Order) (orders : List Order) (events : List OrderEvent) (tree : T)
        (contracts : Contracts)
        → All (Apart x) orders
        → is_watched s laws (forget_orders s abi now orders events tree contracts).1.1.0 x
          ≡ is_watched s laws tree x
    unfolding forget_orders
    forget_orders-Apart x [] events tree contracts _ = refl
    forget_orders-Apart x (o ∷ orders) events tree contracts (apart, others) =
        let events' = events ++ stopped_event now o ∷ [] in
        let tree' = remove_item s.rb_tree (expiration_of o.signed_order) (s.hex o.hash) tree in
        after x tree events' tree'
          (λ contracts'. forget_orders s abi now orders events' tree' contracts')
          (remove_asset_data abi o.signed_order.maker_asset_data contracts)
          (λ contracts'.
            forget_orders-Apart x orders events' tree' contracts' others
            ∙ removed-Apart x o tree apart)
          (removed-Apart x o tree apart)
      where
        after :
            (x : Order) (tree : T) (events : List OrderEvent) (tree' : T)
            (next : Contracts → Forgotten T) (failed : Option Error × Contracts)
            → ((contracts : Contracts)
                → is_watched s laws (next contracts).1.1.0 x ≡ is_watched s laws tree x)
            → is_watched s laws tree' x ≡ is_watched s laws tree x
            → is_watched s laws (after_removal failed events tree' next).1.1.0 x
              ≡ is_watched s laws tree x
        after x tree events tree' next (some e, contracts) h k = k
        after x tree events tree' next (none, contracts) h k = h contracts

    module _ {F : Type 0} (reset_at : ℕ) (float : BigFloat F) where
      lower_maximum-tree :
          (new_max : ℕ) (w : Memory T F)
          → (lower_maximum s abi now reset_at float new_max w).tree ≡ w.tree
      unfolding lower_maximum
      lower_maximum-tree new_max w = elim (Bool-cases (ltb new_max w.max_expiration_time)) [
        | inl e ↦ rw e refl
        | inr e ↦ rw e refl
      ]

      finish-tree :
          (new_max : ℕ) (f : Forgotten T) (w : Memory T F)
          → (finish s abi now reset_at float new_max f w).1.tree ≡ f.1.1.0
      unfolding finish
      finish-tree new_max (some e, (events, (tree, contracts))) w = refl
      finish-tree new_max (none, (events, (tree, contracts))) w =
          lower_maximum-tree new_max (record w { tree = tree; contracts = contracts })

      forget_trimmed-Apart :
          (x : Order) (removed : List Order) (new_max : ℕ) (w : Memory T F)
          → All (Apart x) removed
          → is_watched s laws
              (forget_trimmed s abi now reset_at float (ok (new_max, removed)) w).1.tree
              x
            ≡ is_watched s laws w.tree x
      unfolding forget_trimmed
      forget_trimmed-Apart x removed new_max w apart =
          ap (λ t. is_watched s laws t x)
            (finish-tree new_max (forget_orders s abi now removed [] w.tree w.contracts) w)
          ∙ forget_orders-Apart x removed [] w.tree w.contracts apart

      abbrev Stays : Order → Memory T F → Trimmed → Type 0
      Stays x w trimmed =
          is_watched s laws (forget_trimmed s abi now reset_at float trimmed w).1.tree x
          ≡ is_watched s laws w.tree x

      -- If different hashes have different texts, the tree is a map with keys in order, and the
      -- last of the orders that the database removed has an expiration time above 0 and a hash
      -- that none of the others has, then the order watcher's part of trimming leaves that last
      -- order watched for its expiration if it was watched, whether or not trimming ended with an
      -- error.
      pub forget_trimmed-last :
          (to_remove : ℕ) (rest : List Order) (x : Order) (w : Memory T F)
          → 0 < x.signed_order.expiration_time_seconds
          → All (λ o. x.hash ≢ o.hash) rest
          → is_watched s laws
              (forget_trimmed s abi now reset_at float
                (trimmed_result to_remove (rest ++ x ∷ []))
                w).1.tree
              x
            ≡ is_watched s laws w.tree x
      unfolding trimmed_result forget_trimmed
      forget_trimmed-last to_remove rest x w positive others =
          let lowered_orders = lower_last (rest ++ x ∷ []) in
          elim (ltb (length (rest ++ x ∷ [])) to_remove)
            as (λ b. Stays x w (unless_pinned b lowered_orders)) [
              | true ↦ refl
              | false ↦
                  elim (get_last? lowered_orders)
                    as (λ last. Stays x w (with_maximum last lowered_orders)) [
                      | none ↦ refl
                      | some l ↦
                          forget_trimmed-Apart x lowered_orders _ w
                            (lower_last-Apart x rest positive others)
                    ]
            ]
