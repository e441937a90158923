-- ===== src/Tests/Rules.antt =====
-- A run of the checks of Mesh on a new order, a stored one and one that expires too late.
use x_mesh.Prelude.{
  ℕ, ◌+◌, ◌≡◌, refl, inl, inr, Bool, true, false, List, [], ◌∷◌, map, ◌==◌, Bool-cases, All,
  if◌then◌else◌,
}
use x_mesh.Errors.{not_found, Result, ok, err}
use x_mesh.Db.Escape.{Bytes}
use x_mesh.Orders.{SignedOrder}
use x_mesh.OrderValidator.{ValidationResults}
use x_mesh.OrderWatch.{Order}
use x_mesh.OrderWatch.Specific.{mesh_specific_order_validation}
use x_mesh.OrderWatch.Specific.Judged.{meets_rules, Answers}
use x_mesh.OrderWatch.Specific.Sorted.{count, IsStored, mesh_specific_order_validation-sorts}
use x_mesh.Tests.Validation.{order_for}

abbrev stored_order : Order
stored_order = record {
  hash = 100;
  signed_order = order_for 5 100;
  last_updated = 0;
  fillable_taker_asset_amount = 4;
  is_removed = false;
  is_pinned = false;
}

-- The hash of an order is its expiration time, and the order with the hash 100 is stored.
abbrev hash_of : SignedOrder → Result ℕ
hash_of order = ok order.expiration_time_seconds

abbrev find_stored : ℕ → Result Order
find_stored hash = if hash == 100 then ok stored_order else err (not_found (hash ∷ []))

abbrev no_bytes : SignedOrder → Result Bytes
no_bytes order = ok []

abbrev new_orders : List SignedOrder
new_orders = order_for 5 100 ∷ order_for 5 200 ∷ order_for 5 2000 ∷ []

find_stored-Answers : Answers hash_of no_bytes find_stored 1000 1 2
find_stored-Answers hash = elim (Bool-cases (hash == 100)) [ inl e ↦ rw e refl | inr e ↦ rw e refl ]

mesh_specific_order_validation-sorts_example :
    (results : ValidationResults) × (valid : List SignedOrder) × (mesh_specific_order_validation
        hash_of no_bytes find_stored 1000 1 2 new_orders
      ≡ ok (results, valid))
    × ((test : SignedOrder → Bool)
        → count test (map (λ info. info.signed_order) results.accepted)
            + count test (map (λ info. info.signed_order) results.rejected)
            + count test valid
          ≡ count test new_orders)
    × All (λ order. meets_rules hash_of no_bytes find_stored 1000 1 2 order ≡ true) valid
    × All (IsStored hash_of no_bytes find_stored 1000 1 2) results.accepted
mesh_specific_order_validation-sorts_example =
    mesh_specific_order_validation-sorts hash_of no_bytes find_stored 1000 1 2 new_orders
      find_stored-Answers
