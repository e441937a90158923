-- ===== src/OrderWatch/Results/Errors.antt =====
-- When `convertValidationResultsIntoOrderEvents` (zeroex/orderwatch/order_watcher.go) fails.
use x_mesh.Prelude.{
  ℕ, ◌≡◌, refl, ap, sym, ◌∙◌, inl, inr, Bool, true, false, Option, none, some, List, [], ◌∷◌, ◌++◌,
  ◌==◌, All, Bool-cases,
}
use x_mesh.Errors.{Error}
use x_mesh.Orders.{EndState, ContractEvent}
use x_mesh.OrderValidator.{
  RejectedOrderInfo, RejectedOrderKind, RejectedOrderStatus, ValidationResults, mesh_error,
  zero_ex_validation, mesh_validation, coordinator_error, ro_expired, ro_fully_filled, ro_cancelled,
  ro_unfunded, convert_status,
}
use x_mesh.OrderWatch.{Order, Books, Setting}
use x_mesh.OrderWatch.Known.{Orders, find_order}
use x_mesh.OrderWatch.Results.{
  Progress, continue_with, accept_all, reject_known, reject_order, reject_found, reject_kind,
  reject_one, reject_all, convert_validation_results_into_order_events,
}

-- A rejection that the order watcher knows what to do with: the validation itself failed, or the chain
-- says that the order expired, was filled or cancelled, or is unfunded.
abbrev pub is_expected : RejectedOrderKind → RejectedOrderStatus → Bool
is_expected mesh_error status = true
is_expected zero_ex_validation ro_expired = true
is_expected zero_ex_validation ro_fully_filled = true
is_expected zero_ex_validation ro_cancelled = true
is_expected zero_ex_validation ro_unfunded = true
is_expected kind status = false

has_end_state :
    (status : RejectedOrderStatus)
    → is_expected zero_ex_validation status ≡ true
    → (convert_status status).1 ≡ true
unfolding convert_status
has_end_state ro_expired h = refl
has_end_state ro_fully_filled h = refl
has_end_state ro_cancelled h = refl
has_end_state ro_unfunded h = refl
has_end_state status h = cc

-- The first rejection that is not expected.
abbrev pub Unexpected : List RejectedOrderInfo → Type 0
Unexpected rejected =
    (before : List RejectedOrderInfo) × (info : RejectedOrderInfo) × (after : List
      RejectedOrderInfo)
    × (rejected ≡ before ++ info ∷ after)
    × All (λ i. is_expected i.kind i.status ≡ true) before
    × (is_expected info.kind info.status ≡ false)

module _ {T Store : Type 0} (s : Setting T Store) (timestamp : ℕ) where
  reject_known_fine :
      (known : EndState × Bool) (events : List ContractEvent) (info : RejectedOrderInfo)
      (order : Order) (p : Progress T)
      → known.1 ≡ true
      → (reject_known s timestamp known events info order p).0 ≡ none
  unfolding reject_known
  reject_known_fine (end_state, true) events info order p h = refl
  reject_known_fine (end_state, false) events info order p h = cc

  reject_found_fine :
      (found : Option Order) (hash_to_events : List (ℕ × List ContractEvent))
      (info : RejectedOrderInfo) (p : Progress T)
      → (convert_status info.status).1 ≡ true
      → (reject_found s timestamp found hash_to_events info p).0 ≡ none
  unfolding reject_found reject_order
  reject_found_fine none hash_to_events info p h = refl
  reject_found_fine (some order) hash_to_events info p h =
      elim (order.fillable_taker_asset_amount == 0)
        as (λ b. (reject_order s timestamp b hash_to_events info order p).0 ≡ none) [
          | true ↦ refl
          | false ↦ reject_known_fine (convert_status info.status) _ info order p h
        ]

  reject_kind_fine :
      (kind : RejectedOrderKind) (hash_to_events : List (ℕ × List ContractEvent))
      (info : RejectedOrderInfo) (p : Progress T)
      → is_expected kind info.status ≡ true
      → (reject_kind s timestamp kind hash_to_events info p).0 ≡ none
  unfolding reject_kind
  reject_kind_fine mesh_error hash_to_events info p h = refl
  reject_kind_fine zero_ex_validation hash_to_events info p h =
      reject_found_fine (find_order info.order_hash p.orders) hash_to_events info p
        (has_end_state info.status h)
  reject_kind_fine mesh_validation hash_to_events info p h = cc
  reject_kind_fine coordinator_error hash_to_events info p h = cc

  continue_with-none :
      (r : Option Error × Progress T) (rest : Progress T → Option Error × Progress T)
      → r.0 ≡ none
      → (continue_with r rest).0 ≡ (rest r.1).0
  continue_with-none (none, p) rest h = refl
  continue_with-none (some e, p) rest h = cc

  reject_all-Unexpected :
      (hash_to_events : List (ℕ × List ContractEvent)) (infos : List RejectedOrderInfo)
      (p : Progress T) (e : Error)
      → (reject_all s timestamp hash_to_events infos p).0 ≡ some e
      → Unexpected infos
  unfolding reject_all reject_one
  reject_all-Unexpected hash_to_events [] p e failed = cc
  reject_all-Unexpected hash_to_events (info ∷ infos) p e failed =
      elim (Bool-cases (is_expected info.kind info.status)) [
        | inr bad ↦ ([], info, infos, refl, tt, bad)
        | inl fine ↦
            let first = reject_kind s timestamp info.kind hash_to_events info p in
            let later =
              sym (
                continue_with-none first (reject_all s timestamp hash_to_events infos)
                  (reject_kind_fine info.kind hash_to_events info p fine))
              ∙ failed in
            let (before, bad, after, same, expected, unexpected) =
              reject_all-Unexpected hash_to_events infos first.1 e later in
            (info ∷ before, bad, after, ap (◌∷◌ info) same, (fine, expected), unexpected)
      ]

  -- If the conversion returns an error, then among the rejections there is a first one that is
  -- neither a failure of the validation itself nor one of the chain because the order expired,
  -- was filled or cancelled, or is unfunded.
  pub convert_validation_results-Unexpected :
      (hash_to_events : List (ℕ × List ContractEvent)) (results : ValidationResults)
      (orders : Orders) (b : Books T) (e : Error)
      → (convert_validation_results_into_order_events s timestamp hash_to_events results orders b).0
        ≡ some e
      → Unexpected results.rejected
  unfolding convert_validation_results_into_order_events
  convert_validation_results-Unexpected hash_to_events results orders b e failed =
      reject_all-Unexpected hash_to_events results.rejected
        (accept_all s timestamp hash_to_events results.accepted
          (record { order_events = []; orders = orders; books = b }))
        e failed
