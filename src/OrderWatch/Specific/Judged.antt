-- ===== src/OrderWatch/Specific/Judged.antt =====
-- The verdict of `meshSpecificOrderValidation` (zeroex/orderwatch/order_watcher.go) on one order.
use x_mesh.Prelude.{ℕ, ◌≡◌, refl, Bool, true, false, not, ◌&&◌, ◌==◌, ltb, length, if◌then◌else◌}
use x_mesh.Errors.{Result, ok, err}
use x_mesh.Db.Escape.{Bytes}
use x_mesh.Orders.{SignedOrder}
use x_mesh.ContractAddresses.{null_address}
use x_mesh.OrderValidator.{RejectedOrderKind, RejectedOrderStatus, mesh_error, ro_internal_error}
use x_mesh.OrderWatch.{Order}
use x_mesh.OrderWatch.Specific.{
  max_order_size_in_bytes, is_not_found, Verdict, rejects, accepts, passes, fails, size_verdict,
  stored_verdict, known_verdict, hash_of, verdict,
}

-- A search finds an order, or says that there is none.
abbrev pub is_answer : Result Order → Bool
is_answer (ok order) = true
is_answer (err e) = is_not_found e

abbrev pub is_absent : Result Order → Bool
is_absent (ok order) = false
is_absent (err e) = is_not_found e

abbrev pub is_small : Result Bytes → Bool
is_small (ok encoded) = not (ltb max_order_size_in_bytes (length encoded))
is_small (err e) = false

module _ (compute_order_hash : SignedOrder → Result ℕ) (marshal : SignedOrder → Result Bytes)
    (find_stored : ℕ → Result Order) (max_expiration_time chain_id exchange : ℕ) where
  abbrev pub is_unknown : Result ℕ → Bool
  is_unknown (ok hash) = is_absent (find_stored hash)
  is_unknown (err e) = false

  -- The rules of Mesh for a new order: it does not expire too late, it has no sender, it is for this chain
  -- and this exchange, it is small, it has a hash, and it is not stored.
  abbrev pub meets_rules : SignedOrder → Bool
  meets_rules order =
      not (ltb max_expiration_time order.expiration_time_seconds)
      && (order.sender_address == null_address
          && (order.chain_id == chain_id
              && (order.exchange_address == exchange
                  && (is_small (marshal order) && is_unknown (compute_order_hash order)))))

  -- A verdict on an order with a hash, if a test says whether it meets the rules.
  abbrev pub Judged : ℕ → Verdict → Bool → Type 0
  Judged hash (rejects kind status) test = Unit
  Judged hash (accepts amount) test =
      (stored : Order) × (find_stored hash ≡ ok stored)
      × (stored.is_removed ≡ false)
      × (amount ≡ stored.fillable_taker_asset_amount)
  Judged hash passes test = test ≡ true
  Judged hash (fails e) test = ⊥

  Judged-if :
      (b : Bool) (kind : RejectedOrderKind) (status : RejectedOrderStatus) (hash : ℕ) (v : Verdict)
      (test : Bool)
      → Judged hash v test
      → Judged hash (if b then rejects kind status else v) (not b && test)
  Judged-if true kind status hash v test j = tt
  Judged-if false kind status hash v test j = j

  Judged-unless :
      (b : Bool) (kind : RejectedOrderKind) (status : RejectedOrderStatus) (hash : ℕ) (v : Verdict)
      (test : Bool)
      → Judged hash v test
      → Judged hash (if not b then rejects kind status else v) (b && test)
  Judged-unless true kind status hash v test j = j
  Judged-unless false kind status hash v test j = tt

  size_verdict-Judged :
      (encoded : Result Bytes) (hash : ℕ) (v : Verdict) (test : Bool)
      → Judged hash v test
      → Judged hash (size_verdict encoded v) (is_small encoded && test)
  unfolding size_verdict
  size_verdict-Judged (err e) hash v test j = tt
  size_verdict-Judged (ok encoded) hash v test j =
      Judged-if (ltb max_order_size_in_bytes (length encoded)) _ _ hash v test j

  stored_verdict-Judged :
      (hash : ℕ) (found : Result Order)
      → find_stored hash ≡ found
      → is_answer found ≡ true
      → Judged hash (stored_verdict found) (is_absent found)
  unfolding stored_verdict
  stored_verdict-Judged hash (err e) there answer = by_error (is_not_found e) answer
    where
      by_error : (b : Bool) → b ≡ true → Judged hash (if b then passes else fails e) b
      by_error true h = refl
      by_error false h = let bad = h in cc
  stored_verdict-Judged hash (ok order) there answer = by_flag order.is_removed refl
    where
      by_flag :
          (b : Bool)
          → order.is_removed ≡ b
          → Judged hash (stored_verdict (ok (record order { is_removed = b }))) false
      by_flag true h = tt
      by_flag false h = (order, there, h, refl)

  -- Every search of the database finds an order, or says that there is none.
  abbrev pub Answers : Type 0
  Answers = (hash : ℕ) → is_answer (find_stored hash) ≡ true

  abbrev pub verdict_of : SignedOrder → Verdict
  verdict_of order =
      verdict compute_order_hash marshal find_stored max_expiration_time chain_id exchange order

  abbrev pub hash_at : SignedOrder → ℕ
  hash_at order =
      hash_of compute_order_hash marshal find_stored max_expiration_time chain_id exchange
        (compute_order_hash order)

  pub verdict-Judged :
      (order : SignedOrder)
      → Answers
      → Judged (hash_at order) (verdict_of order) (meets_rules order)
  unfolding verdict known_verdict
  verdict-Judged order answers = by_hash (compute_order_hash order)
    where
      by_hash :
          (r : Result ℕ)
          → Judged
              (hash_of compute_order_hash marshal find_stored max_expiration_time chain_id exchange
                r)
              (elim r [
                | err e ↦ rejects mesh_error ro_internal_error
                | ok hash ↦
                    known_verdict compute_order_hash marshal find_stored max_expiration_time
                      chain_id exchange order hash
              ])
              (not (ltb max_expiration_time order.expiration_time_seconds)
                && (order.sender_address == null_address
                    && (order.chain_id == chain_id
                        && (order.exchange_address == exchange
                            && (is_small (marshal order) && is_unknown r)))))
      by_hash (err e) = tt
      by_hash (ok hash) =
          Judged-if (ltb max_expiration_time order.expiration_time_seconds) _ _ hash _ _ (
            Judged-unless (order.sender_address == null_address) _ _ hash _ _ (
              Judged-unless (order.chain_id == chain_id) _ _ hash _ _ (
                Judged-unless (order.exchange_address == exchange) _ _ hash _ _ (
                  size_verdict-Judged (marshal order) hash _ _
                    (stored_verdict-Judged hash (find_stored hash) refl (answers hash))))))
