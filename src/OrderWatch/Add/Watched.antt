-- ===== src/OrderWatch/Add/Watched.antt =====
-- What the orders that are added leave in the watcher of expiration times (`setupInMemoryOrderState` and
-- the last loop of `add` of zeroex/orderwatch/order_watcher.go).
use x_mesh.Prelude.{
  ℕ, ◌≡◌, refl, ap, sym, ◌∙◌, inl, inr, Bool, true, false, Option, none, some, List, [], ◌∷◌, ◌++◌,
  map, All, ◌==◌, ==_refl, Bool-cases, append_assoc, append-nil,
}
use x_mesh.Errors.{Error, Result, ok, err}
use x_mesh.Orders.{SignedOrder, OrderEvent, es_order_added}
use x_mesh.AssetData.{Abi}
use x_mesh.StringSet.{contains}
use x_mesh.StringSet.Membership.{contains-add_to_set, contains-add_to_set_kept}
use x_mesh.OrderValidator.{AcceptedOrderInfo}
use x_mesh.ExpirationWatch.{RbTreeLaws, unix, add_item}
use x_mesh.ExpirationWatch.Watched.{watched, add_item-watched}
use x_mesh.OrderWatch.{Setting, expiration_of}
use x_mesh.OrderWatch.Contracts.{Contracts, set_at, add_asset_data}
use x_mesh.OrderWatch.Trim.Forget.{Memory}
use x_mesh.OrderWatch.Add.{
  Added, accepted_event, after_fee, after_maker, setup_hashed, setup_in_memory_order_state,
  after_setup, setup_all,
}

module _ {T Store : Type 0} (s : Setting T Store) (laws : RbTreeLaws s.rb_tree) where
  -- Whether a hash is watched for the expiration of an order.
  abbrev pub is_watched_as : T → SignedOrder → ℕ → Bool
  is_watched_as tree order hash =
      contains (watched s.rb_tree laws tree (unix (expiration_of order))) (s.hex hash)

  -- Whether an order is watched under the hash that is computed for it.
  abbrev pub is_set_up : T → SignedOrder → Result ℕ → Bool
  is_set_up tree order (err e) = false
  is_set_up tree order (ok hash) = is_watched_as tree order hash

  abbrev with_order : SignedOrder → ℕ → T → T
  with_order order hash tree = add_item s.rb_tree (expiration_of order) (s.hex hash) tree

  with_order_self :
      (order : SignedOrder) (hash : ℕ) (tree : T)
      → is_watched_as (with_order order hash tree) order hash ≡ true
  with_order_self order hash tree =
      ap (λ ids. contains ids (s.hex hash))
        (add_item-watched s.rb_tree laws exp (s.hex hash) tree (unix exp)
          ∙ rw (==_refl (unix exp)) refl)
      ∙ contains-add_to_set (s.hex hash) (watched s.rb_tree laws tree (unix exp))
    where
      exp : ℕ
      exp = expiration_of order

  with_order_kept :
      (order : SignedOrder) (hash : ℕ) (tree : T) (o : SignedOrder) (h : ℕ)
      → is_watched_as tree o h ≡ true
      → is_watched_as (with_order order hash tree) o h ≡ true
  with_order_kept order hash tree o h is =
      ap (λ ids. contains ids (s.hex h))
        (add_item-watched s.rb_tree laws (expiration_of order) (s.hex hash) tree
          (unix (expiration_of o)))
      ∙ elim (Bool-cases (unix (expiration_of order) == unix (expiration_of o))) [
        | inl e ↦ rw e (
            contains-add_to_set_kept (s.hex hash) (s.hex h)
              (watched s.rb_tree laws tree (unix (expiration_of o))) is)
        | inr e ↦ rw e is
      ]

  is_set_up_kept :
      (tree tree' : T) (o : SignedOrder) (r : Result ℕ)
      → ((h : ℕ) → is_watched_as tree o h ≡ true → is_watched_as tree' o h ≡ true)
      → is_set_up tree o r ≡ true
      → is_set_up tree' o r ≡ true
  is_set_up_kept tree tree' o (err e) kept is = cc
  is_set_up_kept tree tree' o (ok h) kept is = kept h is

  module _ {F : Type 0} (abi : Abi) (compute_order_hash : SignedOrder → Result ℕ) where
    -- What stays watched, and what is watched when there is no error.
    abbrev SetsUp : SignedOrder → Result ℕ → Memory T F → Option Error × Memory T F → Type 0
    SetsUp order r w w' =
        ((o : SignedOrder) (h : ℕ)
          → is_watched_as w.tree o h ≡ true
          → is_watched_as w'.1.tree o h ≡ true)
        × (w'.0 ≡ none → is_set_up w'.1.tree order r ≡ true)

    after_fee-SetsUp :
        (order : SignedOrder) (hash : ℕ) (fee : Option Error × Contracts) (w : Memory T F)
        → SetsUp order (ok hash) w (after_fee s abi compute_order_hash hash order fee w)
    after_fee-SetsUp order hash (some e, contracts) w = (λ o h is. is, λ h. cc)
    after_fee-SetsUp order hash (none, contracts) w =
        (with_order_kept order hash w.tree, λ h. with_order_self order hash w.tree)

    after_maker-SetsUp :
        (order : SignedOrder) (hash : ℕ) (maker : Option Error × Contracts) (w : Memory T F)
        → SetsUp order (ok hash) w (after_maker s abi compute_order_hash hash order maker w)
    after_maker-SetsUp order hash (some e, contracts) w = (λ o h is. is, λ h. cc)
    after_maker-SetsUp order hash (none, contracts) w = after_fee-SetsUp order hash _ w

    setup_hashed-SetsUp :
        (order : SignedOrder) (r : Result ℕ) (w : Memory T F)
        → SetsUp order r w (setup_hashed s abi compute_order_hash order r w)
    setup_hashed-SetsUp order (err e) w = (λ o h is. is, λ h. cc)
    setup_hashed-SetsUp order (ok hash) w =
        after_maker-SetsUp order hash (add_asset_data abi order.maker_asset_data w.contracts)
          (record w { known_exchanges = set_at order.exchange_address true w.known_exchanges })

    setup-SetsUp :
        (order : SignedOrder) (w : Memory T F)
        → SetsUp order
            (compute_order_hash order)
            w
            (setup_in_memory_order_state s abi compute_order_hash order w)
    unfolding setup_in_memory_order_state
    setup-SetsUp order w = setup_hashed-SetsUp order (compute_order_hash order) w

    after_setup_kept :
        (events : List OrderEvent) (w : Memory T F) (set_up : Option Error × Memory T F)
        (next : Memory T F → Added T F) (o : SignedOrder) (h : ℕ)
        → is_watched_as set_up.1.tree o h ≡ true
        → ((w' : Memory T F)
            → is_watched_as w'.tree o h ≡ true
            → is_watched_as (next w').1.tree o h ≡ true)
        → is_watched_as (after_setup s abi compute_order_hash events set_up next).1.tree o h ≡ true
    after_setup_kept events w (some e, w') next o h is rest = is
    after_setup_kept events w (none, w') next o h is rest = rest w' is

    setup_all_kept :
        (now : ℕ) (infos : List AcceptedOrderInfo) (events : List OrderEvent) (w : Memory T F)
        (o : SignedOrder) (h : ℕ)
        → is_watched_as w.tree o h ≡ true
        → is_watched_as (setup_all s abi compute_order_hash now infos events w).1.tree o h ≡ true
    unfolding setup_all
    setup_all_kept now [] events w o h is = is
    setup_all_kept now (info ∷ infos) events w o h is =
        after_setup_kept events w
          (setup_in_memory_order_state s abi compute_order_hash info.signed_order w)
          (λ w'.
            setup_all s abi compute_order_hash now infos
              (events ++ accepted_event now es_order_added info ∷ []) w')
          o h ((setup-SetsUp info.signed_order w).0 o h is)
          (λ w'. setup_all_kept now infos _ w' o h)

    -- The events of added orders behind the given ones, and every order watched.
    abbrev pub Adds : ℕ → List AcceptedOrderInfo → List OrderEvent → Added T F → Type 0
    Adds now infos events r =
        (r.0.1 ≡ events ++ map (accepted_event now es_order_added) infos)
        × All
            (λ info.
              is_set_up r.1.tree info.signed_order (compute_order_hash info.signed_order) ≡ true)
            infos

    -- If the tree is a map with keys in order, and the in-memory state of all orders of a list is
    -- set up without an error, then there is, behind the events before, one more event for each
    -- of them, in their order, that the order was added, and every one of them is watched for its
    -- expiration under the hash that is computed for it, whether or not it was inserted into the
    -- database.
    pub setup_all-Adds :
        (now : ℕ) (infos : List AcceptedOrderInfo) (events : List OrderEvent) (w : Memory T F)
        → (setup_all s abi compute_order_hash now infos events w).0.0 ≡ none
        → Adds now infos events (setup_all s abi compute_order_hash now infos events w)
    unfolding setup_all
    setup_all-Adds now [] events w fine = (sym (append-nil events), tt)
    setup_all-Adds now (info ∷ infos) events w fine =
        let events' = events ++ accepted_event now es_order_added info ∷ [] in
        after now info infos events w
          (setup_in_memory_order_state s abi compute_order_hash info.signed_order w)
          (setup-SetsUp info.signed_order w)
          (λ w'. setup_all s abi compute_order_hash now infos events' w')
          (λ w'. setup_all-Adds now infos events' w') (λ w'. setup_all_kept now infos events' w')
          fine
      where
        after :
            (now : ℕ) (info : AcceptedOrderInfo) (infos : List AcceptedOrderInfo)
            (events : List OrderEvent) (w : Memory T F) (set_up : Option Error × Memory T F)
            → SetsUp info.signed_order (compute_order_hash info.signed_order) w set_up
            → (next : Memory T F → Added T F)
            → ((w' : Memory T F)
                → (next w').0.0 ≡ none
                → Adds now infos (events ++ accepted_event now es_order_added info ∷ []) (next w'))
            → ((w' : Memory T F) (o : SignedOrder) (h : ℕ)
                → is_watched_as w'.tree o h ≡ true
                → is_watched_as (next w').1.tree o h ≡ true)
            → (after_setup s abi compute_order_hash events set_up next).0.0 ≡ none
            → Adds now
                (info ∷ infos)
                events
                (after_setup s abi compute_order_hash events set_up next)
        after now info infos events w (some e, w') sets_up next adds kept fine = cc
        after now info infos events w (none, w') sets_up next adds kept fine =
            let (all_events, others) = adds w' fine in
            (
              all_events
                  ∙ append_assoc events (accepted_event now es_order_added info ∷ [])
                      (map (accepted_event now es_order_added) infos),
              (
                is_set_up_kept w'.tree (next w').1.tree info.signed_order
                    (compute_order_hash info.signed_order) (kept w' info.signed_order)
                    (sets_up.1 refl),
                others,
              ),
            )
