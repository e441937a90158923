-- ===== src/OrderWatch/Watching/Converted.antt =====
-- The orders and the watcher of expiration times under `convertValidationResultsIntoOrderEvents`
-- (zeroex/orderwatch/order_watcher.go).
use x_mesh.Prelude.{
  ℕ, ◌≡◌, refl, ap, sym, ◌∙◌, inl, inr, Bool, true, false, not, Option, none, some, List, [], ◌∷◌,
  ◌==◌, Option-cases, subst,
}
use x_mesh.Errors.{Error}
use x_mesh.ExpirationWatch.{RbTreeLaws}
use x_mesh.Orders.{EndState, ContractEvent}
use x_mesh.OrderValidator.{
  AcceptedOrderInfo, RejectedOrderInfo, RejectedOrderKind, ValidationResults, mesh_error,
  zero_ex_validation, mesh_validation, coordinator_error,
}
use x_mesh.OrderWatch.{Order, Books, Setting}
use x_mesh.OrderWatch.Known.{Orders, find_order, set_order, set_order-cases}
use x_mesh.OrderWatch.Watching.{
  is_watched, Keeps, rewatch_order-Keeps, unwatch_order-Keeps, update_order_db_entry-Keeps,
}
use x_mesh.OrderWatch.Results.{
  Handled, became_unexpired, same_amount, other_amount, accept_case, accept_order, accept_found,
  Progress, accept_one, accept_all, reject_known, reject_order, reject_found, reject_kind,
  reject_one, continue_with, reject_all, convert_validation_results_into_order_events,
}

module _ {T Store : Type 0} (s : Setting T Store) (laws : RbTreeLaws s.rb_tree)
    (hex_injective : (a b : ℕ) → s.hex a ≡ s.hex b → a ≡ b) where
  -- Every order of the map stands under its hash, and its expiration is watched unless it is flagged
  -- for removal.
  abbrev AgreesFor : ℕ → Option Order → T → Type 0
  AgreesFor hash none tree = Unit
  AgreesFor hash (some order) tree =
      (order.hash ≡ hash) × (is_watched s laws tree order ≡ not order.is_removed)

  abbrev pub Agree : Orders → T → Type 0
  Agree orders tree = (hash : ℕ) → AgreesFor hash (find_order hash orders) tree

  found-Agree :
      (orders : Orders) (tree : T) (hash : ℕ) (order : Order)
      → find_order hash orders ≡ some order
      → Agree orders tree
      → (order.hash ≡ hash) × (is_watched s laws tree order ≡ not order.is_removed)
  found-Agree orders tree hash order e agree = subst (λ o. AgreesFor hash o tree) e (agree hash)

  Agree-found :
      (orders : Orders) (tree : T)
      → ((hash : ℕ) (order : Order)
          → find_order hash orders ≡ some order
          → (order.hash ≡ hash) × (is_watched s laws tree order ≡ not order.is_removed))
      → Agree orders tree
  Agree-found orders tree h hash = elim (Option-cases (find_order hash orders)) [
    | inl e ↦ subst (λ o. AgreesFor hash o tree) (sym e) tt
    | inr (order, e) ↦ subst (λ o. AgreesFor hash o tree) (sym e) (h hash order e)
  ]

  -- The update of an order of the map.
  set_order-Agree :
      (hash : ℕ) (old new : Order) (orders : Orders) (tree tree' : T)
      → find_order hash orders ≡ some old
      → Keeps s laws old tree new tree'
      → Agree orders tree
      → Agree (set_order hash new orders) tree'
  set_order-Agree hash old new orders tree tree' found (same, own, others) agree =
      Agree-found (set_order hash new orders) tree' λ key order h.
        elim (set_order-cases hash key new order orders h) [
          | inl (e, n) ↦ (
            ap (λ o. o.hash) n ∙ same ∙ (found-Agree orders tree hash old found agree).0 ∙ e,
            subst (λ o. is_watched s laws tree' o ≡ not o.is_removed) (sym n) own,
          )
          | inr (apart, there) ↦
              let (at_key, watched_there) = found-Agree orders tree key order there agree in
              let other = λ (e : order.hash ≡ old.hash).
                apart (sym (found-Agree orders tree hash old found agree).0 ∙ sym e ∙ at_key) in
              (at_key, others order other ∙ watched_there)
        ]

  -- What a case of a loop makes of an order and the rest keeps the agreement.
  abbrev KeepsHandled : Order → T → Handled T → Type 0
  KeepsHandled order tree handled = Keeps s laws order tree handled.1.0 handled.1.1.tree

  same_amount-Keeps :
      (timestamp : ℕ) (unexpired : Bool) (order : Order) (b : Books T)
      → is_watched s laws b.tree order ≡ not order.is_removed
      → KeepsHandled order b.tree (same_amount s timestamp unexpired order b)
  unfolding same_amount
  same_amount-Keeps timestamp true order b h =
      rewatch_order-Keeps s laws hex_injective order order.fillable_taker_asset_amount b
  same_amount-Keeps timestamp false order b h = (refl, h, λ other differs. refl)

  other_amount-Keeps :
      (timestamp : ℕ) (unexpired : Bool) (end_state : EndState) (hash : ℕ)
      (events : List ContractEvent) (amount : ℕ) (order : Order) (b : Books T)
      → is_watched s laws b.tree order ≡ not order.is_removed
      → KeepsHandled order b.tree
          (other_amount s timestamp unexpired end_state hash events amount order b)
  unfolding other_amount
  other_amount-Keeps timestamp true end_state hash events amount order b h =
      rewatch_order-Keeps s laws hex_injective order amount b
  other_amount-Keeps timestamp false end_state hash events amount order b h =
      update_order_db_entry-Keeps s laws hex_injective
        (record order { fillable_taker_asset_amount = amount }) b h

  accept_case-Keeps :
      (timestamp : ℕ) (zero_before same more : Bool) (events : List ContractEvent)
      (info : AcceptedOrderInfo) (order : Order) (b : Books T)
      → is_watched s laws b.tree order ≡ not order.is_removed
      → KeepsHandled order b.tree
          (accept_case s timestamp zero_before same more events info order b)
  unfolding accept_case
  accept_case-Keeps timestamp true same more events info order b h =
      rewatch_order-Keeps s laws hex_injective order info.fillable_taker_asset_amount b
  accept_case-Keeps timestamp false true more events info order b h =
      same_amount-Keeps timestamp (became_unexpired s timestamp order) order b h
  accept_case-Keeps timestamp false false true events info order b h =
      other_amount-Keeps timestamp (became_unexpired s timestamp order) _ info.order_hash events
        info.fillable_taker_asset_amount order b h
  accept_case-Keeps timestamp false false false events info order b h =
      other_amount-Keeps timestamp (became_unexpired s timestamp order) _ info.order_hash events
        info.fillable_taker_asset_amount order b h

  abbrev AgreeAt : Progress T → Type 0
  AgreeAt p = Agree p.orders p.books.tree

  accept_found-Agree :
      (timestamp : ℕ) (hash_to_events : List (ℕ × List ContractEvent)) (info : AcceptedOrderInfo)
      (found : Option Order) (p : Progress T)
      → find_order info.order_hash p.orders ≡ found
      → AgreeAt p
      → AgreeAt (accept_found s timestamp found hash_to_events info p)
  unfolding accept_found accept_order
  accept_found-Agree timestamp hash_to_events info none p e agree = agree
  accept_found-Agree timestamp hash_to_events info (some order) p e agree =
      set_order-Agree info.order_hash order _ p.orders p.books.tree _ e
        (accept_case-Keeps timestamp _ _ _ _ info order p.books
          (found-Agree p.orders p.books.tree info.order_hash order e agree).1)
        agree

  accept_all-Agree :
      (timestamp : ℕ) (hash_to_events : List (ℕ × List ContractEvent))
      (infos : List AcceptedOrderInfo) (p : Progress T)
      → AgreeAt p
      → AgreeAt (accept_all s timestamp hash_to_events infos p)
  unfolding accept_all accept_one
  accept_all-Agree timestamp hash_to_events [] p agree = agree
  accept_all-Agree timestamp hash_to_events (info ∷ infos) p agree =
      accept_all-Agree timestamp hash_to_events infos _
        (accept_found-Agree timestamp hash_to_events info _ p refl agree)

  reject_known-Agree :
      (timestamp : ℕ) (status : EndState × Bool) (events : List ContractEvent)
      (info : RejectedOrderInfo) (order : Order) (p : Progress T)
      → find_order info.order_hash p.orders ≡ some order
      → AgreeAt p
      → AgreeAt (reject_known s timestamp status events info order p).1
  unfolding reject_known
  reject_known-Agree timestamp (end_state, known) events info order p e agree =
      let agree' =
        set_order-Agree info.order_hash order _ p.orders p.books.tree _ e
          (unwatch_order-Keeps s laws hex_injective order 0 p.books) agree in
      elim known
        as (λ known. AgreeAt (reject_known s timestamp (end_state, known) events info order p).1) [
          | true ↦ agree'
          | false ↦ agree'
        ]

  reject_found-Agree :
      (timestamp : ℕ) (found : Option Order) (hash_to_events : List (ℕ × List ContractEvent))
      (info : RejectedOrderInfo) (p : Progress T)
      → find_order info.order_hash p.orders ≡ found
      → AgreeAt p
      → AgreeAt (reject_found s timestamp found hash_to_events info p).1
  unfolding reject_found reject_order
  reject_found-Agree timestamp none hash_to_events info p e agree = agree
  reject_found-Agree timestamp (some order) hash_to_events info p e agree =
      elim (order.fillable_taker_asset_amount == 0)
        as (λ b. AgreeAt (reject_order s timestamp b hash_to_events info order p).1) [
          | true ↦ agree
          | false ↦ reject_known-Agree timestamp _ _ info order p e agree
        ]

  reject_kind-Agree :
      (timestamp : ℕ) (kind : RejectedOrderKind) (hash_to_events : List (ℕ × List ContractEvent))
      (info : RejectedOrderInfo) (p : Progress T)
      → AgreeAt p
      → AgreeAt (reject_kind s timestamp kind hash_to_events info p).1
  unfolding reject_kind
  reject_kind-Agree timestamp mesh_error hash_to_events info p agree = agree
  reject_kind-Agree timestamp zero_ex_validation hash_to_events info p agree =
      reject_found-Agree timestamp _ hash_to_events info p refl agree
  reject_kind-Agree timestamp mesh_validation hash_to_events info p agree = agree
  reject_kind-Agree timestamp coordinator_error hash_to_events info p agree = agree

  continue_with-Agree :
      (first : Option Error × Progress T) (rest : Progress T → Option Error × Progress T)
      → AgreeAt first.1
      → ((p : Progress T) → AgreeAt p → AgreeAt (rest p).1)
      → AgreeAt (continue_with first rest).1
  continue_with-Agree (some e, p) rest agree later = agree
  continue_with-Agree (none, p) rest agree later = later p agree

  reject_all-Agree :
      (timestamp : ℕ) (hash_to_events : List (ℕ × List ContractEvent))
      (infos : List RejectedOrderInfo) (p : Progress T)
      → AgreeAt p
      → AgreeAt (reject_all s timestamp hash_to_events infos p).1
  unfolding reject_all reject_one
  reject_all-Agree timestamp hash_to_events [] p agree = agree
  reject_all-Agree timestamp hash_to_events (info ∷ infos) p agree =
      continue_with-Agree (reject_one s timestamp hash_to_events info p) _
        (reject_kind-Agree timestamp info.kind hash_to_events info p agree)
        (λ q. reject_all-Agree timestamp hash_to_events infos q)

  -- If the tree is a map with keys in order and different hashes have different texts, then
  -- whatever the validation found, and with an error or without, the conversion keeps this: every
  -- order of the map stands under its hash, and its expiration is watched unless it is flagged
  -- for removal, and not watched if it is.
  pub convert_validation_results-Agree :
      (timestamp : ℕ) (hash_to_events : List (ℕ × List ContractEvent)) (results : ValidationResults)
      (orders : Orders) (b : Books T)
      → Agree orders b.tree
      → let (failed, p) =
          convert_validation_results_into_order_events s timestamp hash_to_events results orders
            b in
        Agree p.orders p.books.tree
  unfolding convert_validation_results_into_order_events
  convert_validation_results-Agree timestamp hash_to_events results orders b agree =
      reject_all-Agree timestamp hash_to_events results.rejected _
        (accept_all-Agree timestamp hash_to_events results.accepted _ agree)
