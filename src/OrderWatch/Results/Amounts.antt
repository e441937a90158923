-- ===== src/OrderWatch/Results/Amounts.antt =====
-- What `convertValidationResultsIntoOrderEvents` (zeroex/orderwatch/order_watcher.go) reports of an
-- accepted order.
use x_mesh.Prelude.{
  ℕ, ◌*◌, ◌≡◌, refl, inl, inr, Bool, true, false, not, ◌&&◌, List, [], ◌∷◌, ◌++◌, map, ◌==◌, ==_iff,
  ltb, All, sym, subst, Bool-cases, append-nil, if◌then◌else◌,
}
use x_mesh.Orders.{
  EndState, ContractEvent, SignedOrder, es_order_added, es_order_filled, es_order_unexpired,
  es_order_fillability_increased,
}
use x_mesh.OrderValidator.{AcceptedOrderInfo}
use x_mesh.OrderWatch.{Order, Books, Setting, expiration_of, update_order_db_entry, rewatch_order}
use x_mesh.OrderWatch.Known.{events_of}
use x_mesh.OrderWatch.Results.{
  Handled, became_unexpired, same_amount, other_amount, accept_case, accept_order,
}

-- An order that is flagged for removal, at a time in nanoseconds before the second in which it expires.
abbrev pub is_unexpired_again : ℕ → Order → Bool
is_unexpired_again timestamp order =
    order.is_removed && ltb timestamp (order.signed_order.expiration_time_seconds * 1_000_000_000)

abbrev unexpired_states : Bool → List EndState
unexpired_states true = es_order_unexpired ∷ []
unexpired_states false = []

-- The end states to report of an order with an old and a new amount that may no longer be expired.
abbrev pub reports : ℕ → ℕ → Bool → List EndState
reports old new unexpired =
    if old == 0
    then es_order_added ∷ []
    else unexpired_states unexpired
      ++ (if old == new
          then []
          else if ltb new old
          then es_order_filled ∷ []
          else es_order_fillability_increased ∷ [])

-- Whether the order stays flagged for removal.
abbrev pub stays_removed : ℕ → Bool → Order → Bool
stays_removed old unexpired order = not (old == 0) && (not unexpired && order.is_removed)

module _ {T Store : Type 0} (s : Setting T Store) (timestamp : ℕ) where
  -- the amount and the flag of the order, the end states of the events, and of each event the amount,
  -- the time and the signed order
  abbrev pub Reported : SignedOrder → ℕ → Bool → List EndState → Handled T → Type 0
  Reported signed amount removed end_states handled =
      (handled.1.0.fillable_taker_asset_amount ≡ amount)
      × (handled.1.0.is_removed ≡ removed)
      × (map (λ e. e.end_state) handled.0 ≡ end_states)
      × All
          (λ e.
            (e.fillable_taker_asset_amount ≡ amount)
            × (e.timestamp ≡ timestamp)
            × (e.signed_order ≡ signed))
          handled.0

  same_amount-Reported :
      (unexpired : Bool) (order : Order) (b : Books T)
      → Reported order.signed_order order.fillable_taker_asset_amount
          (not unexpired && order.is_removed)
          (unexpired_states unexpired)
          (same_amount s timestamp unexpired order b)
  unfolding same_amount rewatch_order
  same_amount-Reported true order b = (refl, refl, refl, ((refl, refl, refl), tt))
  same_amount-Reported false order b = (refl, refl, refl, tt)

  other_amount-Reported :
      (unexpired : Bool) (end_state : EndState) (hash : ℕ) (events : List ContractEvent)
      (amount : ℕ) (order : Order) (b : Books T)
      → Reported order.signed_order amount
          (not unexpired && order.is_removed)
          (unexpired_states unexpired ++ end_state ∷ [])
          (other_amount s timestamp unexpired end_state hash events amount order b)
  unfolding other_amount rewatch_order update_order_db_entry
  other_amount-Reported true end_state hash events amount order b =
      (refl, refl, refl, ((refl, refl, refl), ((refl, refl, refl), tt)))
  other_amount-Reported false end_state hash events amount order b =
      (refl, refl, refl, ((refl, refl, refl), tt))

  accept_case-Reported :
      (zero_before same less : Bool) (events : List ContractEvent) (info : AcceptedOrderInfo)
      (order : Order) (b : Books T)
      → (same ≡ true → order.fillable_taker_asset_amount ≡ info.fillable_taker_asset_amount)
      → Reported order.signed_order info.fillable_taker_asset_amount
          (not zero_before && (not (became_unexpired s timestamp order) && order.is_removed))
          (if zero_before
            then es_order_added ∷ []
            else unexpired_states (became_unexpired s timestamp order)
              ++ (if same
                  then []
                  else if less
                  then es_order_filled ∷ []
                  else es_order_fillability_increased ∷ []))
          (accept_case s timestamp zero_before same less events info order b)
  unfolding accept_case rewatch_order
  accept_case-Reported true same less events info order b h =
      (refl, refl, refl, ((refl, refl, refl), tt))
  accept_case-Reported false true less events info order b h =
      let unexpired = became_unexpired s timestamp order in
      let handled = same_amount s timestamp unexpired order b in
      let flag = not unexpired && order.is_removed in
      subst
        (λ states. Reported order.signed_order info.fillable_taker_asset_amount flag states handled)
        (sym (append-nil (unexpired_states unexpired)))
        (subst
          (λ amount. Reported order.signed_order amount flag (unexpired_states unexpired) handled)
          (h refl) (same_amount-Reported unexpired order b))
  accept_case-Reported false false true events info order b h =
      other_amount-Reported (became_unexpired s timestamp order) es_order_filled info.order_hash
        events info.fillable_taker_asset_amount order b
  accept_case-Reported false false false events info order b h =
      other_amount-Reported (became_unexpired s timestamp order) es_order_fillability_increased
        info.order_hash events info.fillable_taker_asset_amount order b

  -- The test of the code, where the amount is not 0.
  became_unexpired-again :
      (order : Order)
      → (order.fillable_taker_asset_amount == 0) ≡ false
      → became_unexpired s timestamp order ≡ is_unexpired_again timestamp order
  unfolding became_unexpired expiration_of
  became_unexpired-again order h = rw h refl

  -- What is reported if the test of the code stands for the one of the specification.
  abbrev ReportedBy : Bool → AcceptedOrderInfo → Order → Handled T → Type 0
  ReportedBy unexpired info order handled =
      Reported order.signed_order info.fillable_taker_asset_amount
        (stays_removed order.fillable_taker_asset_amount unexpired order)
        (reports order.fillable_taker_asset_amount info.fillable_taker_asset_amount unexpired)
        handled

  ReportedBy-zero :
      (unexpired unexpired' : Bool) (info : AcceptedOrderInfo) (order : Order) (handled : Handled T)
      → (order.fillable_taker_asset_amount == 0) ≡ true
      → ReportedBy unexpired info order handled
      → ReportedBy unexpired' info order handled
  ReportedBy-zero unexpired unexpired' info order handled zero_before h =
      let now = rw zero_before at h in rw zero_before now

  -- An accepted order that is known has the new amount afterwards, and its events have that
  -- amount, the time of the block and its signed order. It is reported as added if its old amount
  -- was 0, and otherwise as unexpired if it was flagged for removal and the time is before the
  -- second of its expiration, and behind that as filled if the amount fell and as more fillable
  -- if it rose. It is flagged for removal afterwards if it was, unless it was reported as added
  -- or unexpired.
  pub accept_order-Reported :
      (hash_to_events : List (ℕ × List ContractEvent)) (info : AcceptedOrderInfo) (order : Order)
      (b : Books T)
      → let old = order.fillable_taker_asset_amount in
        let unexpired = is_unexpired_again timestamp order in
        Reported order.signed_order info.fillable_taker_asset_amount
          (stays_removed old unexpired order)
          (reports old info.fillable_taker_asset_amount unexpired)
          (accept_order s timestamp hash_to_events info order b)
  unfolding accept_order
  accept_order-Reported hash_to_events info order b =
      let old = order.fillable_taker_asset_amount in
      let handled = accept_order s timestamp hash_to_events info order b in
      let done : ReportedBy (became_unexpired s timestamp order) info order handled =
        accept_case-Reported (old == 0) (old == info.fillable_taker_asset_amount)
          (ltb info.fillable_taker_asset_amount old) (events_of order.hash hash_to_events) info
          order b (==_iff old info.fillable_taker_asset_amount).0 in
      elim (Bool-cases (old == 0)) [
        | inl e ↦ ReportedBy-zero _ (is_unexpired_again timestamp order) info order handled e done
        | inr e ↦
            subst (λ unexpired. ReportedBy unexpired info order handled)
              (became_unexpired-again order e) done
      ]
