-- ===== src/OrderWatch/Contracts/Counts.antt =====
-- The counts of the contracts that are watched (zeroex/orderwatch/order_watcher.go) when asset data is
-- added and removed again.
use x_mesh.Prelude.{
  ℕ, zero, suc, ◌+◌, ◌-◌, ◌%◌, ◌^◌, ◌<◌, ◌≡◌, refl, ap, sym, ◌∙◌, inl, inr, Bool, true, false,
  Option, none, some, List, [], ◌∷◌, ◌++◌, ◌==◌, ==_iff, Bool-cases, length, if◌then◌else◌, arith,
}
use x_mesh.Errors.{Error, Result, ok, err}
use x_mesh.Db.Escape.{Bytes}
use x_mesh.AssetData.{Abi}
use x_mesh.OrderWatch.Contracts.{
  set_at, Contracts, Standard, erc20, erc721, erc1155, set_known, add_contract, remove_contract,
  Parts, contract, nothing, nested, parts_of, Action, and_then, for_each, walk_parts, walk,
  add_asset_data, remove_asset_data,
}

abbrev Tokens : Type 0
Tokens = List (Standard × ℕ)

-- an action for each token
abbrev act_on : (Standard → ℕ → Contracts → Contracts) → Tokens → Contracts → Contracts
act_on act [] c = c
act_on act ((standard, address) ∷ tokens) c = act_on act tokens (act standard address c)

act_on-append :
    (act : Standard → ℕ → Contracts → Contracts) (xs ys : Tokens) (c : Contracts)
    → act_on act (xs ++ ys) c ≡ act_on act ys (act_on act xs c)
act_on-append act [] ys c = refl
act_on-append act ((standard, address) ∷ xs) ys c = act_on-append act xs ys (act standard address c)

module _ (abi : Abi) where
  -- A walk that has no error acts on tokens that do not depend on the action or the state.
  ActsOn : Tokens → ℕ → Bytes → Type 0
  ActsOn tokens fuel asset_data =
      (act : Action abi) (c : Contracts)
      → walk abi act fuel asset_data c ≡ (none, act_on act tokens c)

  EachActsOn : Tokens → ℕ → List Bytes → Type 0
  EachActsOn tokens fuel list =
      (act : Action abi) (c : Contracts)
      → for_each abi (walk abi act fuel) list c ≡ (none, act_on act tokens c)

  and_then-none :
      (first : Option Error × Contracts) (rest : Contracts → Option Error × Contracts)
      → (and_then abi first rest).0 ≡ none
      → (first.0 ≡ none) × ((rest first.1).0 ≡ none)
  and_then-none (some e, c) rest h = let bad = h in cc
  and_then-none (none, c) rest h = (refl, h)

  for_each-ActsOn :
      (fuel : ℕ) (act : Action abi) (list : List Bytes) (c : Contracts)
      → ((asset_data : Bytes) (c : Contracts)
          → (walk abi act fuel asset_data c).0 ≡ none
          → (tokens : Tokens) × ActsOn tokens fuel asset_data)
      → (for_each abi (walk abi act fuel) list c).0 ≡ none
      → (tokens : Tokens) × EachActsOn tokens fuel list
  unfolding ActsOn EachActsOn
  for_each-ActsOn fuel act [] c body h = ([], λ act' c'. refl)
  for_each-ActsOn fuel act (x ∷ xs) c body h =
      let (fine, fine') =
        and_then-none (walk abi act fuel x c) (for_each abi (walk abi act fuel) xs) h in
      let (here, e) = body x c fine in
      let (later, e') = for_each-ActsOn fuel act xs (walk abi act fuel x c).1 body fine' in
      (
        here ++ later,
        λ act' c'.
            ap (λ r. and_then abi r (for_each abi (walk abi act' fuel) xs)) (e act' c')
            ∙ e' act' (act_on act' here c')
            ∙ ap (λ c. (none, c)) (sym (act_on-append act' here later c')),
      )

  walk-ActsOn :
      (fuel : ℕ) (act : Action abi) (asset_data : Bytes) (c : Contracts)
      → (walk abi act fuel asset_data c).0 ≡ none
      → (tokens : Tokens) × ActsOn tokens fuel asset_data
  unfolding walk ActsOn EachActsOn
  walk-ActsOn zero act asset_data c h = let bad = h in cc
  walk-ActsOn (suc fuel) act asset_data c h =
      by_parts (parts_of abi asset_data) (λ x c. walk-ActsOn fuel act x c) h
    where
      by_parts :
          (r : Result Parts)
          → ((x : Bytes) (c : Contracts)
              → (walk abi act fuel x c).0 ≡ none
              → (tokens : Tokens) × ActsOn tokens fuel x)
          → (walk_parts abi act (walk abi act fuel) r c).0 ≡ none
          → (tokens : Tokens) × ((act' : Action abi) (c' : Contracts)
              → walk_parts abi act' (walk abi act' fuel) r c' ≡ (none, act_on act' tokens c'))
      by_parts (err e) body h = let bad = h in cc
      by_parts (ok (contract standard address)) body h = ((standard, address) ∷ [], λ act' c'. refl)
      by_parts (ok nothing) body h = ([], λ act' c'. refl)
      by_parts (ok (nested list)) body h = for_each-ActsOn fuel act list c body h

-- the sum of an amount for each token that has an address
abbrev weight : ℕ → ℕ → Tokens → ℕ
weight amount address [] = 0
weight amount address ((standard, a) ∷ tokens) =
    let rest = weight amount address tokens in if a == address then amount + rest else rest

set_known-seen_count :
    (standard : Standard) (a : ℕ) (known : Bool) (c : Contracts)
    → (set_known standard a known c).seen_count ≡ c.seen_count
unfolding set_known
set_known-seen_count erc20 a known c = refl
set_known-seen_count erc721 a known c = refl
set_known-seen_count erc1155 a known c = refl

add_contract-seen_count :
    (standard : Standard) (a : ℕ) (c : Contracts) (address : ℕ)
    → (add_contract standard a c).seen_count address
      ≡ (if a == address then (c.seen_count address + 1) % 2 ^ 64 else c.seen_count address)
unfolding add_contract set_at
add_contract-seen_count standard a c address = elim (Bool-cases (a == address)) [
  | inl e ↦
      let same = (==_iff a address).0 e in
      rw (e, set_known-seen_count standard a true c) (ap (λ k. (c.seen_count k + 1) % 2 ^ 64) same)
  | inr e ↦ rw (e, set_known-seen_count standard a true c) refl
]

remove_contract-seen_count :
    (standard : Standard) (a : ℕ) (c : Contracts) (address : ℕ)
    → (remove_contract standard a c).seen_count address ≡ (
        if a == address
        then (c.seen_count address + (2 ^ 64 - 1)) % 2 ^ 64
        else c.seen_count address)
unfolding remove_contract set_at
remove_contract-seen_count standard a c address =
    known_or_not ((c.seen_count a + (2 ^ 64 - 1)) % 2 ^ 64 == 0) ∙ at_address
  where
    count : ℕ
    count = (c.seen_count a + (2 ^ 64 - 1)) % 2 ^ 64

    c' : Contracts
    c' = record c { seen_count = set_at a count c.seen_count }

    known_or_not :
        (b : Bool)
        → (if b then set_known standard a false c' else c').seen_count address
          ≡ set_at a count c.seen_count address
    known_or_not true = ap (λ f. f address) (set_known-seen_count standard a false c')
    known_or_not false = refl

    at_address : set_at a count c.seen_count address ≡ (
        if a == address
        then (c.seen_count address + (2 ^ 64 - 1)) % 2 ^ 64
        else c.seen_count address)
    at_address = elim (Bool-cases (a == address)) [
      | inl e ↦ rw e (ap (λ k. (c.seen_count k + (2 ^ 64 - 1)) % 2 ^ 64) ((==_iff a address).0 e))
      | inr e ↦ rw e refl
    ]

-- An action that adds an amount to the count of a token's address adds the weight of the tokens.
act_on-seen_count :
    (act : Standard → ℕ → Contracts → Contracts) (amount address : ℕ)
    → ((standard : Standard) (a : ℕ) (c : Contracts)
        → (act standard a c).seen_count address ≡ (
            if a == address
            then (c.seen_count address + amount) % 2 ^ 64
            else c.seen_count address))
    → (tokens : Tokens) (c : Contracts) → c.seen_count address < 2 ^ 64
    → (act_on act tokens c).seen_count address
      ≡ (c.seen_count address + weight amount address tokens) % 2 ^ 64
act_on-seen_count act amount address h [] c small = omega (arith, small)
act_on-seen_count act amount address h ((standard, a) ∷ tokens) c small =
    elim (Bool-cases (a == address)) [
      | inl e ↦
          let next = h standard a c in
          let now = rw e at next in
          let later =
            act_on-seen_count act amount address h tokens (act standard a c) (omega (arith, now)) in
          rw e (omega (arith, now, later))
      | inr e ↦
          let next = h standard a c in
          let now = rw e at next in
          let later =
            act_on-seen_count act amount address h tokens (act standard a c)
              (omega (arith, now, small)) in
          rw e (omega (arith, now, later))
    ]

weights_cancel :
    (address : ℕ) (tokens : Tokens)
    → (weight 1 address tokens + weight (2 ^ 64 - 1) address tokens) % 2 ^ 64 ≡ 0
weights_cancel address [] = refl
weights_cancel address ((standard, a) ∷ tokens) =
    let rest = weights_cancel address tokens in
    elim (Bool-cases (a == address)) [ inl e ↦ rw e (omega (arith, rest)) | inr e ↦ rw e rest ]

module _ (abi : Abi) where
  -- If adding asset data has no error, then removing it again has none either, and brings back
  -- the count of every address, as long as that fits into 64 bits.
  pub remove_asset_data-add_asset_data :
      (asset_data : Bytes) (c : Contracts) (address : ℕ)
      → c.seen_count address < 2 ^ 64
      → (add_asset_data abi asset_data c).0 ≡ none
      → let (failed, c') = remove_asset_data abi asset_data (add_asset_data abi asset_data c).1 in
        (failed ≡ none) × (c'.seen_count address ≡ c.seen_count address)
  unfolding add_asset_data remove_asset_data ActsOn
  remove_asset_data-add_asset_data asset_data c address small fine =
      let fuel = suc (length asset_data) in
      let (tokens, acts) = walk-ActsOn abi fuel add_contract asset_data c fine in
      let c1 = act_on add_contract tokens c in
      let added =
        act_on-seen_count add_contract 1 address
          (λ standard a c. add_contract-seen_count standard a c address) tokens c small in
      let removed =
        act_on-seen_count remove_contract (2 ^ 64 - 1) address
          (λ standard a c. remove_contract-seen_count standard a c address) tokens c1
          (omega (arith, added)) in
      let run =
        ap (λ r. walk abi remove_contract fuel asset_data r.1) (acts add_contract c)
        ∙ acts remove_contract c1 in
      (
        ap (λ r. r.0) run,
        ap (λ r. r.1.seen_count address) run
            ∙ omega (arith, removed, added, small, weights_cancel address tokens),
      )
