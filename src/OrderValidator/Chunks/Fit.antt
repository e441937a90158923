-- ===== src/OrderValidator/Chunks/Fit.antt =====
-- The batches of `BatchValidate` (zeroex/ordervalidator/order_validator.go) against the limit of a
-- request.
use x_mesh.Prelude.{
  ℕ, suc, ◌+◌, ◌-◌, ◌*◌, ◌≤◌, ◌<◌, ◌≡◌, refl, ap, sym, subst, ◌∙◌, inl, inr, true, false, List, [],
  ◌∷◌, ◌++◌, ◌==◌, ltb, Bool-cases, length, length-append, take, drop, All, append_assoc,
  append-nil, ltb→lt, lt→ltb, arith,
}
use x_mesh.Errors.{Result, ok, err}
use x_mesh.Db.Escape.{Bytes}
use x_mesh.Orders.{SignedOrder}
use x_mesh.OrderValidator.Chunks.{
  empty_get_order_relevant_states_call_data_byte_length,
  compute_abi_encoded_signed_order_byte_length, chunk_loop, compute_optimal_chunk_sizes,
  signed_order_chunks,
}

-- What a call for one order adds to the JSON of a request: two quotes, "0x" and two digits for each byte
-- of its encoding, less the 268 characters that the call has without an order. An order that cannot
-- be encoded counts as nothing.
abbrev pub added_length : Result Bytes → ℕ
added_length (err e) = 0
added_length (ok encoded) = 2 + 2 + 2 * length encoded - 268

module _ (pack : SignedOrder → Result Bytes) (max : ℕ) where
  abbrev cost : SignedOrder → ℕ
  cost order = added_length (pack order)

  computed :
      (order : SignedOrder) → compute_abi_encoded_signed_order_byte_length pack order ≡ cost order
  unfolding compute_abi_encoded_signed_order_byte_length
  computed order =
      elim (pack order)
        as (λ r.
          (elim r [
            | err e ↦ 0
            | ok encoded ↦
                2 * length encoded + 4 - empty_get_order_relevant_states_call_data_byte_length
          ])
          ≡ added_length r) [ err e ↦ refl | ok encoded ↦ omega arith ]

  -- the length of a request for some orders, of which the part without the orders has 444 characters
  abbrev pub payload : List SignedOrder → ℕ
  payload [] = 444
  payload (order ∷ orders) = payload orders + cost order

  -- A chunk was closed because the first order of the next would have made it too long.
  abbrev pub WasClosed : List SignedOrder → List (List SignedOrder) → Type 0
  WasClosed chunk [] = Unit
  WasClosed chunk ([] ∷ chunks) = Unit
  WasClosed chunk ((order ∷ orders) ∷ chunks) = max ≤ payload chunk + cost order

  -- The chunks are the orders in their order, each is not empty and its request shorter than the
  -- limit, and none could have taken the first order of the next.
  abbrev pub Chunked : List (List SignedOrder) → List SignedOrder → Type 0
  Chunked [] orders = orders ≡ []
  Chunked (chunk ∷ chunks) orders =
      (rest : List SignedOrder) × (orders ≡ chunk ++ rest)
      × (0 < length chunk)
      × (payload chunk < max)
      × WasClosed chunk chunks
      × Chunked chunks rest

  take-append : (xs ys : List SignedOrder) → take (length xs) (xs ++ ys) ≡ xs
  take-append [] ys = refl
  take-append (x ∷ xs) ys = ap (◌∷◌ x) (take-append xs ys)

  drop-append : (xs ys : List SignedOrder) → drop (length xs) (xs ++ ys) ≡ ys
  drop-append [] ys = refl
  drop-append (x ∷ xs) ys = drop-append xs ys

  payload-append :
      (xs : List SignedOrder) (x : SignedOrder) → payload (xs ++ x ∷ []) ≡ payload xs + cost x
  payload-append [] x = refl
  payload-append (y ∷ ys) x = omega (arith, payload-append ys x)

  chunks-append :
      (xs ys : List SignedOrder) (sizes : List ℕ)
      → signed_order_chunks (length xs ∷ sizes) (xs ++ ys) ≡ xs ∷ signed_order_chunks sizes ys
  unfolding signed_order_chunks
  chunks-append xs ys sizes = rw (take-append xs ys, drop-append xs ys) refl

  full→le : (a b : ℕ) → ltb a b ≡ false → b ≤ a
  full→le a b h = ground arith

  not_zero : (n : ℕ) → (suc n == 0) ≡ false
  not_zero n = ground arith

  one_more : (xs : List SignedOrder) (x : SignedOrder) → length (xs ++ x ∷ []) ≡ suc (length xs)
  one_more xs x = omega (arith, length-append xs (x ∷ []))

  -- What the loop makes of a chunk that it has begun with `first` and `others`, and of the orders
  -- that it has not seen yet.
  Finishes : SignedOrder → List SignedOrder → List SignedOrder → List ℕ → Type 0
  Finishes first others orders done =
      (sizes : List ℕ) × (more : List SignedOrder) × (chunks : List (List SignedOrder))
      × (chunk_loop pack max orders (payload (first ∷ others)) (suc (length others)) done
          ≡ ok (done ++ sizes))
      × (signed_order_chunks sizes ((first ∷ others) ++ orders)
          ≡ ((first ∷ others) ++ more) ∷ chunks)
      × Chunked (((first ∷ others) ++ more) ∷ chunks) ((first ∷ others) ++ orders)

  -- an order that would fit into a request of its own
  abbrev pub FitsAlone : SignedOrder → Type 0
  FitsAlone order = 444 + cost order < max

  takes_one :
      (first : SignedOrder) (others : List SignedOrder) (order : SignedOrder)
      (orders : List SignedOrder) (done : List ℕ)
      → ltb (payload (first ∷ others) + cost order) max ≡ true
      → Finishes first (others ++ order ∷ []) orders done
      → Finishes first others (order ∷ orders) done
  unfolding chunk_loop Finishes
  takes_one first others order orders done fits (sizes, more, chunks, loop, split, chunked) =
      let same = append_assoc others (order ∷ []) orders in
      let same' = append_assoc others (order ∷ []) more in
      let longer = payload-append (first ∷ others) order in
      let count = one_more others order in
      (
        sizes,
        order ∷ more,
        chunks,
        rw (computed order, fits, chunk_loop, computed order)
            (ap (λ p. chunk_loop pack max orders p (suc (suc (length others))) done) (sym longer)
              ∙ ap
                  (λ n.
                    chunk_loop pack max orders (payload (first ∷ (others ++ order ∷ []))) (suc n)
                      done)
                  (sym count)
              ∙ loop),
        ap (λ xs. signed_order_chunks sizes (first ∷ xs)) (sym same)
            ∙ split
            ∙ ap (λ xs. (first ∷ xs) ∷ chunks) same',
        subst (λ xs. Chunked ((first ∷ xs) ∷ chunks) (first ∷ (others ++ order ∷ orders))) same'
            (subst
              (λ xs. Chunked ((first ∷ ((others ++ order ∷ []) ++ more)) ∷ chunks) (first ∷ xs))
              same chunked),
      )

  closes :
      (first : SignedOrder) (others : List SignedOrder) (order : SignedOrder)
      (orders : List SignedOrder) (done : List ℕ)
      → ltb (payload (first ∷ others) + cost order) max ≡ false
      → payload (first ∷ others) < max
      → Finishes order [] orders (done ++ suc (length others) ∷ [])
      → Finishes first others (order ∷ orders) done
  unfolding chunk_loop Finishes signed_order_chunks
  closes first others order orders done full small (sizes, more, chunks, loop, split, chunked) =
      let whole = append-nil (first ∷ others) in
      let late = full→le (payload (first ∷ others) + cost order) max full in
      (
        suc (length others) ∷ sizes,
        [],
        (order ∷ more) ∷ chunks,
        rw (computed order, full, not_zero (length others), chunk_loop, computed order)
            (loop ∙ ap ok (append_assoc done (suc (length others) ∷ []) sizes)),
        chunks-append (first ∷ others) (order ∷ orders) sizes
            ∙ ap (λ xs. (first ∷ others) ∷ xs) split
            ∙ ap (λ xs. xs ∷ (order ∷ more) ∷ chunks) (sym whole),
        subst (λ xs. Chunked (xs ∷ (order ∷ more) ∷ chunks) ((first ∷ others) ++ order ∷ orders))
            (sym whole) (order ∷ orders, refl, omega arith, small, late, chunked),
      )

  finishes :
      (orders : List SignedOrder) (first : SignedOrder) (others : List SignedOrder) (done : List ℕ)
      → payload (first ∷ others) < max
      → All FitsAlone orders
      → Finishes first others orders done
  unfolding chunk_loop Finishes signed_order_chunks
  finishes [] first others done small fit = (
    suc (length others) ∷ [],
    [],
    [],
    rw (not_zero (length others)) refl,
    chunks-append (first ∷ others) [] [] ∙ ap (λ xs. xs ∷ []) (sym (append-nil (first ∷ others))),
    subst (λ xs. Chunked (xs ∷ []) ((first ∷ others) ++ [])) (sym (append-nil (first ∷ others)))
        ([], refl, omega arith, small, tt, refl),
  )
  finishes (order ∷ orders) first others done small (here, fit) =
      elim (Bool-cases (ltb (payload (first ∷ others) + cost order) max)) [
        | inl fits ↦
            takes_one first others order orders done fits
              (finishes orders first (others ++ order ∷ []) done (longer fits) fit)
        | inr full ↦
            closes first others order orders done full small
              (finishes orders order [] (done ++ suc (length others) ∷ []) here fit)
      ]
    where
      longer :
          ltb (payload (first ∷ others) + cost order) max ≡ true
          → payload (first ∷ (others ++ order ∷ [])) < max
      longer fits = omega (
        arith,
        payload-append (first ∷ others) order,
        ltb→lt (payload (first ∷ others) + cost order) max fits,
      )

  -- If every order would fit into a request of its own, then the sizes are computed without a
  -- panic, and the chunks of these sizes are all orders in their order, none of them empty, each
  -- in a request shorter than the limit, counted in two digits for each byte of the encodings,
  -- and none with room for the first order of the next.
  pub compute_optimal_chunk_sizes-Chunked :
      (orders : List SignedOrder)
      → All FitsAlone orders
      → (sizes : List ℕ) × (compute_optimal_chunk_sizes pack max orders ≡ ok sizes)
        × Chunked (signed_order_chunks sizes orders) orders
  unfolding compute_optimal_chunk_sizes chunk_loop signed_order_chunks Finishes
  compute_optimal_chunk_sizes-Chunked [] fit = ([], refl, refl)
  compute_optimal_chunk_sizes-Chunked (order ∷ orders) (here, fit) =
      let (sizes, more, chunks, loop, split, chunked) = finishes orders order [] [] here fit in
      let fits = lt→ltb (444 + cost order) max here in
      (
        sizes,
        rw (computed order, fits, chunk_loop, computed order) loop,
        subst (λ xs. Chunked xs (order ∷ orders)) (sym split) chunked,
      )
