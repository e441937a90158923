-- ===== src/OrderWatch/Known.antt =====
-- The maps of zeroex/orderwatch/order_watcher.go from hashes to orders and to contract events, as lists of
-- pairs. The orders are changed in place.
use x_mesh.Prelude.{
  ℕ, ◌≡◌, ◌≢◌, sym, ◌⊎◌, inl, inr, true, false, Option, none, some, some-injective, List, [], ◌∷◌,
  ◌==◌, Bool-cases, if◌then◌else◌, arith,
}
use x_mesh.Orders.{ContractEvent}
use x_mesh.OrderWatch.{Order}

abbrev pub Orders : Type 0
Orders = List (ℕ × Order)

abbrev pub find_order : ℕ → Orders → Option Order
find_order hash [] = none
find_order hash ((key, order) ∷ orders) =
    let rest = find_order hash orders in if key == hash then some order else rest

-- the change of the order that a key points to
abbrev pub set_order : ℕ → Order → Orders → Orders
set_order hash order [] = []
set_order hash order ((key, old) ∷ orders) =
    let rest = set_order hash order orders in (key, (if key == hash then order else old)) ∷ rest

-- `orderHashToEvents[hash]`, which is nil for a missing hash
abbrev pub events_of : ℕ → List (ℕ × List ContractEvent) → List ContractEvent
events_of hash [] = []
events_of hash ((key, events) ∷ rest) =
    let later = events_of hash rest in if key == hash then events else later

differs : (hash k key : ℕ) → (k == hash) ≡ false → (k == key) ≡ true → hash ≢ key
differs hash k key e h same = ground arith

agrees : (hash k key : ℕ) → (k == hash) ≡ true → (k == key) ≡ true → hash ≡ key
agrees hash k key e h = ground arith

-- What is found after an order has been changed.
pub set_order-cases :
    (hash key : ℕ) (new order : Order) (orders : Orders)
    → find_order key (set_order hash new orders) ≡ some order
    → ((hash ≡ key) × (order ≡ new)) ⊎ ((hash ≢ key) × (find_order key orders ≡ some order))
set_order-cases hash key new order [] h = let bad = h in cc
set_order-cases hash key new order ((k, old) ∷ orders) h = elim (Bool-cases (k == key)) [
  | inl e ↦ elim (Bool-cases (k == hash)) [
    | inl same ↦
        let h' = rw (e, same) at h in inl (agrees hash k key same e, sym (some-injective _ _ h'))
    | inr other ↦ let h' = rw (e, other) at h in inr (differs hash k key other e, rw e h')
  ]
  | inr e ↦
      let h' = rw e at h in
      elim (set_order-cases hash key new order orders h') [
        | inl both ↦ inl both
        | inr (apart, found) ↦ inr (apart, rw e found)
      ]
]
