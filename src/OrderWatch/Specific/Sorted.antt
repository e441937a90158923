-- ===== src/OrderWatch/Specific/Sorted.antt =====
-- What `meshSpecificOrderValidation` (zeroex/orderwatch/order_watcher.go) makes of the orders that it is
-- given.
use x_mesh.Prelude.{
  ℕ, suc, ◌+◌, ◌≡◌, refl, ap, ◌∙◌, Bool, true, false, List, [], ◌∷◌, ◌++◌, map, All, All-append,
  if◌then◌else◌, arith,
}
use x_mesh.Errors.{Result, ok}
use x_mesh.Db.Escape.{Bytes}
use x_mesh.Orders.{SignedOrder}
use x_mesh.OrderValidator.{AcceptedOrderInfo, ValidationResults}
use x_mesh.OrderWatch.{Order}
use x_mesh.OrderWatch.Specific.{
  Verdict, rejects, accepts, passes, fails, file_order, specific_loop,
  mesh_specific_order_validation,
}
use x_mesh.OrderWatch.Specific.Judged.{
  meets_rules, Judged, Answers, verdict_of, hash_at, verdict-Judged,
}

-- how many orders pass a test
abbrev pub count : (SignedOrder → Bool) → List SignedOrder → ℕ
count test [] = 0
count test (order ∷ orders) = let rest = count test orders in if test order then suc rest else rest

count-append :
    (test : SignedOrder → Bool) (xs : List SignedOrder) (x : SignedOrder)
    → count test (xs ++ x ∷ []) ≡ count test (x ∷ xs)
count-append test [] x = refl
count-append test (y ∷ ys) x = swap (test y) (test x) (count-append test ys x)
  where
    swap :
        (a b : Bool)
        → count test (ys ++ x ∷ []) ≡ (if b then suc (count test ys) else count test ys)
        → (if a then suc (count test (ys ++ x ∷ [])) else count test (ys ++ x ∷ [])) ≡ (
            if b
            then suc (if a then suc (count test ys) else count test ys)
            else (if a then suc (count test ys) else count test ys))
    swap true true e = ap suc e
    swap true false e = ap suc e
    swap false true e = e
    swap false false e = e

in_first : (a b c y a' : ℕ) → a' ≡ y + a → a' + b + c ≡ y + (a + b + c)
in_first a b c y a' e = omega (arith, e)

in_second : (a b c y b' : ℕ) → b' ≡ y + b → a + b' + c ≡ y + (a + b + c)
in_second a b c y b' e = omega (arith, e)

in_third : (a b c y c' : ℕ) → c' ≡ y + c → a + b + c' ≡ y + (a + b + c)
in_third a b c y c' e = omega (arith, e)

map-append_one :
    {A : Type 0} (f : A → SignedOrder) (xs : List A) (x : A)
    → map f (xs ++ x ∷ []) ≡ map f xs ++ f x ∷ []
map-append_one f [] x = refl
map-append_one f (y ∷ ys) x = ap (◌∷◌ (f y)) (map-append_one f ys x)

module _ (compute_order_hash : SignedOrder → Result ℕ) (marshal : SignedOrder → Result Bytes)
    (find_stored : ℕ → Result Order) (max_expiration_time chain_id exchange : ℕ) where
  abbrev SortState : Type 0
  SortState = ValidationResults × List SignedOrder

  abbrev accepted_orders : SortState → List SignedOrder
  accepted_orders state = map (λ info. info.signed_order) state.0.accepted

  abbrev rejected_orders : SortState → List SignedOrder
  rejected_orders state = map (λ info. info.signed_order) state.0.rejected

  -- how many orders of a state pass a test
  abbrev count_in : (SignedOrder → Bool) → SortState → ℕ
  count_in test state =
      count test (accepted_orders state) + count test (rejected_orders state) + count test state.1

  -- An accepted order is not new: it is stored and not flagged for removal.
  abbrev pub IsStored : AcceptedOrderInfo → Type 0
  IsStored info =
      (stored : Order) × (find_stored info.order_hash ≡ ok stored)
      × (stored.is_removed ≡ false)
      × (info.fillable_taker_asset_amount ≡ stored.fillable_taker_asset_amount)
      × (info.is_new ≡ false)

  -- From a state of the loop to that after some orders.
  abbrev Files : List SignedOrder → SortState → SortState → Type 0
  Files orders state state' =
      ((test : SignedOrder → Bool) → count_in test state' ≡ count test orders + count_in test state)
      × (All
            (λ order.
              meets_rules compute_order_hash marshal find_stored max_expiration_time chain_id
                exchange order
              ≡ true)
            state.1
          → All
              (λ order.
                meets_rules compute_order_hash marshal find_stored max_expiration_time chain_id
                  exchange order
                ≡ true)
              state'.1)
      × (All IsStored state.0.accepted → All IsStored state'.0.accepted)

  count-one :
      (test : SignedOrder → Bool) (order : SignedOrder) (xs ys : List SignedOrder)
      → ys ≡ xs ++ order ∷ []
      → count test ys ≡ count test (order ∷ []) + count test xs
  count-one test order xs ys e = ap (count test) e ∙ count-append test xs order ∙ split (test order)
    where
      split :
          (b : Bool)
          → (if b then suc (count test xs) else count test xs)
            ≡ (if b then 1 else 0) + count test xs
      split true = omega arith
      split false = omega arith

  Files-trans :
      (order : SignedOrder) (orders : List SignedOrder) (first middle last : SortState)
      → Files (order ∷ []) first middle
      → Files orders middle last
      → Files (order ∷ orders) first last
  Files-trans order orders first middle last (c, v, a) (c', v', a') = (
    λ test. c' test ∙ ap (λ n. count test orders + n) (c test) ∙ total test,
    λ h. v' (v h),
    λ h. a' (a h),
  )
    where
      total :
          (test : SignedOrder → Bool)
          → count test orders + (count test (order ∷ []) + count_in test first)
            ≡ count test (order ∷ orders) + count_in test first
      total test = by_test (test order)
        where
          by_test :
              (b : Bool)
              → count test orders + ((if b then 1 else 0) + count_in test first)
                ≡ (if b then suc (count test orders) else count test orders) + count_in test first
          by_test true = omega arith
          by_test false = omega arith

  abbrev file_at :
      Verdict → SignedOrder → SortState → (SortState → Result SortState) → Result SortState
  file_at v order state rest =
      file_order compute_order_hash marshal find_stored max_expiration_time chain_id exchange v
        order state rest

  -- One order is filed in one of the three lists.
  Files-one :
      (v : Verdict) (order : SignedOrder) (state : SortState)
      → Judged compute_order_hash marshal find_stored max_expiration_time chain_id exchange
          (hash_at compute_order_hash marshal find_stored max_expiration_time chain_id exchange
            order)
          v
          (meets_rules compute_order_hash marshal find_stored max_expiration_time chain_id exchange
            order)
      → (state' : SortState) × ((rest : SortState → Result SortState)
          → file_at v order state rest ≡ rest state')
        × Files (order ∷ []) state state'
  Files-one (fails e) order state j = absurd j
  Files-one passes order (results, valid) j = (
    (results, valid ++ order ∷ []),
    λ rest. refl,
    (
      λ test. in_third _ _ _ _ _ (count-one test order valid (valid ++ order ∷ []) refl),
      λ h. All-append _ valid _ h (j, tt),
      λ h. h,
    ),
  )
  Files-one (rejects kind status) order (results, valid) j = (
    _,
    λ rest. refl,
    (
      λ test. in_second _ _ _ _ _ (
          count-one test order (rejected_orders (results, valid)) _
            (map-append_one (λ info. info.signed_order) results.rejected _)),
      λ h. h,
      λ h. h,
    ),
  )
  Files-one (accepts amount) order (results, valid) (stored, found, kept, same) = (
    _,
    λ rest. refl,
    (
      λ test. in_first _ _ _ _ _ (
          count-one test order (accepted_orders (results, valid)) _
            (map-append_one (λ info. info.signed_order) results.accepted _)),
      λ h. h,
      λ h. All-append _ results.accepted _ h ((stored, found, kept, same, refl), tt),
    ),
  )

  specific_loop-Files :
      (orders : List SignedOrder) (state : SortState)
      → Answers compute_order_hash marshal find_stored max_expiration_time chain_id exchange
      → (state' : SortState) × (specific_loop compute_order_hash marshal find_stored
            max_expiration_time chain_id exchange orders state
          ≡ ok state')
        × Files orders state state'
  unfolding specific_loop
  specific_loop-Files [] state answers = (state, refl, (λ test. omega arith, λ h. h, λ h. h))
  specific_loop-Files (order ∷ orders) state answers =
      let (middle, filed, one) =
        Files-one
          (verdict_of compute_order_hash marshal find_stored max_expiration_time chain_id exchange
            order)
          order state
          (verdict-Judged compute_order_hash marshal find_stored max_expiration_time chain_id
            exchange order answers) in
      let (last, run, others) = specific_loop-Files orders middle answers in
      (last, filed _ ∙ run, Files-trans order orders state middle last one others)

  -- If every search of the database finds an order or says that there is none, then the
  -- validation has no error; every order given is once among the accepted, the rejected and the
  -- remaining orders; every remaining order meets the rules of Mesh; and every accepted one is
  -- stored and not flagged for removal, has the amount that is stored, and is not new.
  pub mesh_specific_order_validation-sorts :
      (orders : List SignedOrder)
      → Answers compute_order_hash marshal find_stored max_expiration_time chain_id exchange
      → (results : ValidationResults) × (valid : List SignedOrder) × (mesh_specific_order_validation
            compute_order_hash marshal find_stored max_expiration_time chain_id exchange orders
          ≡ ok (results, valid))
        × ((test : SignedOrder → Bool)
            → count test (map (λ info. info.signed_order) results.accepted)
                + count test (map (λ info. info.signed_order) results.rejected)
                + count test valid
              ≡ count test orders)
        × All
            (λ order.
              meets_rules compute_order_hash marshal find_stored max_expiration_time chain_id
                exchange order
              ≡ true)
            valid
        × All IsStored results.accepted
  unfolding mesh_specific_order_validation
  mesh_specific_order_validation-sorts orders answers =
      let ((results, valid), run, (counts, rules, stored)) =
        specific_loop-Files orders (record { accepted = []; rejected = [] }, []) answers in
      (results, valid, run, λ test. counts test ∙ omega arith, rules tt, stored tt)
