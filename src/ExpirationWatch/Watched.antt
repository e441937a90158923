-- ===== src/ExpirationWatch/Watched.antt =====
-- The watcher of expiration times (expirationwatch/expiration_watcher.go) as a map from seconds to
-- the IDs that are watched.
use x_mesh.Prelude.{
  ℕ, zero, suc, ◌*◌, ◌<◌, ◌≡◌, refl, ap, sym, ◌∙◌, inl, inr, Bool, true, false, Option, none, some,
  List, [], ◌∷◌, ◌++◌, map, ◌==◌, ==_iff, ==_refl, ltb, Bool-cases, Option-cases, append_assoc,
  append-nil, if◌then◌else◌, arith,
}
use x_mesh.Db.Escape.{Bytes}
use x_mesh.StringSet.{add_to_set, remove_from_set}
use x_mesh.ExpirationWatch.{
  RbTree, RbTreeLaws, ExpiredItem, nanoseconds, unix, has_none, add_item, remove_item, prune_loop,
  prune,
}

-- The IDs of the items that expire at a second.
abbrev pub ids_at : ℕ → List ExpiredItem → List Bytes
ids_at key [] = []
ids_at key (item ∷ items) =
    let rest = ids_at key items in if item.expiration_timestamp == key then item.id ∷ rest else rest

ids_at-append :
    (key : ℕ) (xs ys : List ExpiredItem) → ids_at key (xs ++ ys) ≡ ids_at key xs ++ ids_at key ys
ids_at-append key [] ys = refl
ids_at-append key (x ∷ xs) ys = elim (Bool-cases (x.expiration_timestamp == key)) [
  | inl e ↦ rw (e, ids_at-append key xs ys) refl
  | inr e ↦ rw (e, ids_at-append key xs ys) refl
]

items : ℕ → List Bytes → List ExpiredItem
items key ids = map (λ id. record { expiration_timestamp = key; id = id }) ids

ids_at-same : (key : ℕ) (ids : List Bytes) → ids_at key (items key ids) ≡ ids
unfolding items
ids_at-same key [] = refl
ids_at-same key (x ∷ xs) = rw (==_refl key, ids_at-same key xs) refl

ids_at-other : (key k : ℕ) (ids : List Bytes) → (k == key) ≡ false → ids_at key (items k ids) ≡ []
unfolding items
ids_at-other key k [] h = refl
ids_at-other key k (x ∷ xs) h = rw (h, ids_at-other key k xs h) refl

-- An absent key watches nothing.
abbrev pub or_none : Option (List Bytes) → List Bytes
or_none none = []
or_none (some ids) = ids

-- Whether a second lies behind a time in nanoseconds.
abbrev pub is_past : ℕ → ℕ → Bool
is_past timestamp key = if ltb timestamp (key * nanoseconds) then false else true

if_same : (b : Bool) (xs : List Bytes) → (if b then xs else xs) ≡ xs
if_same true xs = refl
if_same false xs = refl

has_none-eq : (ids : List Bytes) → has_none ids ≡ true → ids ≡ []
has_none-eq [] h = refl
has_none-eq (x ∷ xs) h = cc

is_past-less :
    (timestamp key k : ℕ)
    → ltb timestamp (k * nanoseconds) ≡ true
    → is_past timestamp key ≡ true
    → key < k
is_past-less timestamp key k h p = ground arith

is_past-eq :
    (timestamp k key : ℕ)
    → k ≡ key
    → ltb timestamp (k * nanoseconds) ≡ false
    → is_past timestamp key ≡ true
is_past-eq timestamp k key e l =
    ap (λ b. if b then false else true) (ap (λ x. ltb timestamp (x * nanoseconds)) (sym e) ∙ l)

module _ {T : Type 0} (tree : RbTree T) (laws : RbTreeLaws tree) where
  -- the IDs that are watched for a second
  abbrev pub watched : T → ℕ → List Bytes
  watched t key = or_none (tree.get t key)

  insert-watched :
      (k key : ℕ) (ids : List Bytes) (t : T)
      → watched (tree.insert k ids t) key ≡ (if k == key then ids else watched t key)
  insert-watched k key ids t = elim (Bool-cases (k == key)) [
    | inl e ↦ rw (laws.get-insert t k key ids, e) refl
    | inr e ↦ rw (laws.get-insert t k key ids, e) refl
  ]

  delete-watched :
      (k key : ℕ) (t : T) → watched (tree.delete k t) key ≡ (if k == key then [] else watched t key)
  delete-watched k key t = elim (Bool-cases (k == key)) [
    | inl e ↦ rw (laws.get-delete t k key, e) refl
    | inr e ↦ rw (laws.get-delete t k key, e) refl
  ]

  -- A conditional on a key depends on what is there at that key only.
  at_key :
      (k key : ℕ) (f : List Bytes → List Bytes) (t : T) (o : Option (List Bytes))
      → tree.get t k ≡ o
      → (if k == key then f (or_none o) else watched t key)
        ≡ (if k == key then f (watched t key) else watched t key)
  at_key k key f t o g = elim (Bool-cases (k == key)) [
    | inl e ↦ rw e (ap (λ o. f (or_none o)) (sym g ∙ ap (tree.get t) ((==_iff k key).0 e)))
    | inr e ↦ rw e refl
  ]

  -- If the tree is a map with keys in order, then Add adds the ID to the set of the second of its
  -- time and changes no other second.
  pub add_item-watched :
      (expiration : ℕ) (id : Bytes) (t : T) (key : ℕ)
      → watched (add_item tree expiration id t) key
        ≡ (if unix expiration == key then add_to_set id (watched t key) else watched t key)
  unfolding add_item
  add_item-watched expiration id t key = elim (Option-cases (tree.get t (unix expiration))) [
    | inl g ↦
        rw (g, add_item)
          (insert-watched (unix expiration) key (add_to_set id []) t
            ∙ at_key (unix expiration) key (add_to_set id) t none g)
    | inr (ids, g) ↦
        rw (g, add_item)
          (insert-watched (unix expiration) key (add_to_set id ids) t
            ∙ at_key (unix expiration) key (add_to_set id) t (some ids) g)
  ]

  absent-removes :
      (k key : ℕ) (id : Bytes) (t : T)
      → tree.get t k ≡ none
      → (if k == key then watched t key else watched t key)
        ≡ (if k == key then remove_from_set id (watched t key) else watched t key)
  unfolding remove_from_set
  absent-removes k key id t g = elim (Bool-cases (k == key)) [
    | inl e ↦ let g' = sym (ap (tree.get t) ((==_iff k key).0 e)) ∙ g in rw (e, g') refl
    | inr e ↦ rw e refl
  ]

  -- If the tree is a map with keys in order, then Remove takes the ID from the set of the second
  -- of its time and changes no other second.
  pub remove_item-watched :
      (expiration : ℕ) (id : Bytes) (t : T) (key : ℕ)
      → watched (remove_item tree expiration id t) key
        ≡ (if unix expiration == key then remove_from_set id (watched t key) else watched t key)
  unfolding remove_item
  remove_item-watched expiration id t key =
      let k = unix expiration in
      elim (Option-cases (tree.get t k)) [
        | inl g ↦
            rw (g, remove_item)
              (sym (if_same (k == key) (watched t key)) ∙ absent-removes k key id t g)
        | inr (ids, g) ↦ elim (Bool-cases (has_none (remove_from_set id ids))) [
          | inl e ↦
              rw (g, e, remove_item)
                (delete-watched k key t
                  ∙ ap (λ x. if k == key then x else watched t key)
                      (sym (has_none-eq (remove_from_set id ids) e))
                  ∙ at_key k key (remove_from_set id) t (some ids) g)
          | inr e ↦
              rw (g, e, remove_item)
                (insert-watched k key (remove_from_set id ids) t
                  ∙ at_key k key (remove_from_set id) t (some ids) g)
        ]
      ]

  nothing-past :
      (timestamp : ℕ) (t : T) (key : ℕ)
      → (is_past timestamp key ≡ true → tree.get t key ≡ none)
      → ([] ≡ (if is_past timestamp key then watched t key else []))
        × (watched t key ≡ (if is_past timestamp key then [] else watched t key))
  nothing-past timestamp t key h = elim (Bool-cases (is_past timestamp key)) [
    | inl p ↦ let g = h p in (rw (p, g) refl, rw (p, g) refl)
    | inr p ↦ (rw p refl, rw p refl)
  ]

  one_key :
      (timestamp k key : ℕ) (ids : List Bytes) (rest : List ExpiredItem) (t t' : T)
      → tree.get t k ≡ some ids
      → ltb timestamp (k * nanoseconds) ≡ false
      → (ids_at key rest ≡ (if is_past timestamp key then watched (tree.delete k t) key else []))
        × (watched t' key ≡ (if is_past timestamp key then [] else watched (tree.delete k t) key))
      → (ids_at key (items k ids ++ rest) ≡ (if is_past timestamp key then watched t key else []))
        × (watched t' key ≡ (if is_past timestamp key then [] else watched t key))
  one_key timestamp k key ids rest t t' found l (e, w) = elim (Bool-cases (k == key)) [
    | inl same ↦
        let eq = (==_iff k key).0 same in
        let past = is_past-eq timestamp k key eq l in
        let gone = delete-watched k key t ∙ ap (λ b. if b then [] else watched t key) same in
        let here = ap (λ x. ids_at key (items x ids)) eq ∙ ids_at-same key ids in
        let e' = e ∙ ap (λ b. if b then watched (tree.delete k t) key else []) past ∙ gone in
        let stored = ap or_none (sym (ap (tree.get t) eq) ∙ found) in
        (
          ids_at-append key (items k ids) rest
              ∙ ap (λ xs. xs ++ ids_at key rest) here
              ∙ ap (λ xs. ids ++ xs) e'
              ∙ append-nil ids
              ∙ sym stored
              ∙ ap (λ b. if b then watched t key else []) (sym past),
          w
              ∙ ap (λ b. if b then [] else watched (tree.delete k t) key) past
              ∙ ap (λ b. if b then [] else watched t key) (sym past),
        )
    | inr other ↦
        let kept_there = delete-watched k key t ∙ ap (λ b. if b then [] else watched t key) other in
        (
          ids_at-append key (items k ids) rest
              ∙ ap (λ xs. xs ++ ids_at key rest) (ids_at-other key k ids other)
              ∙ e
              ∙ ap (λ xs. if is_past timestamp key then xs else []) kept_there,
          w ∙ ap (λ xs. if is_past timestamp key then [] else xs) kept_there,
        )
  ]

  prune_loop-watched :
      (fuel timestamp : ℕ) (pruned : List ExpiredItem) (t : T)
      → laws.size t < fuel
      → (new_items : List ExpiredItem) × (t' : T) × (prune_loop tree fuel timestamp pruned t
          ≡ some (pruned ++ new_items, t'))
        × ((key : ℕ)
            → (ids_at key new_items ≡ (if is_past timestamp key then watched t key else []))
              × (watched t' key ≡ (if is_past timestamp key then [] else watched t key)))
  unfolding prune_loop items
  prune_loop-watched zero timestamp pruned t small = absurd (omega (arith, small))
  prune_loop-watched (suc fuel) timestamp pruned t small = elim (Option-cases (tree.min_entry t)) [
    | inl m ↦ (
      [],
      t,
      rw (m, prune_loop) (ap (λ x. some (x, t)) (sym (append-nil pruned))),
      λ key. nothing-past timestamp t key (λ p. laws.min-none t m key),
    )
    | inr ((k, ids), m) ↦ elim (Bool-cases (ltb timestamp (k * nanoseconds))) [
      | inl l ↦ (
        [],
        t,
        rw (m, l, prune_loop) (ap (λ x. some (x, t)) (sym (append-nil pruned))),
        λ key.
            nothing-past timestamp t key
              (λ p. (laws.min-some t k ids m).1 key (is_past-less timestamp key k l p)),
      )
      | inr l ↦
          let found = (laws.min-some t k ids m).0 in
          let (rest, t', e, h) =
            prune_loop-watched fuel timestamp (pruned ++ items k ids) (tree.delete k t)
              (omega (arith, small, laws.size-delete t k ids found)) in
          (
            items k ids ++ rest,
            t',
            rw (m, l, prune_loop)
                (e ∙ ap (λ x. some (x, t')) (append_assoc pruned (items k ids) rest)),
            λ key. one_key timestamp k key ids rest t t' found l (h key),
          )
    ]
  ]

  -- If the tree is a map with keys in order, then with more fuel than there are keys Prune
  -- returns, for every second that lies behind the time or at it, exactly the IDs that were
  -- watched for that second, and for every other second none, and it goes on watching exactly the
  -- IDs of the other seconds.
  pub prune-watched :
      (fuel timestamp : ℕ) (t : T)
      → laws.size t < fuel
      → (pruned : List ExpiredItem) × (t' : T) × (prune tree fuel timestamp t ≡ some (pruned, t'))
        × ((key : ℕ)
            → (ids_at key pruned ≡ (if is_past timestamp key then watched t key else []))
              × (watched t' key ≡ (if is_past timestamp key then [] else watched t key)))
  unfolding prune
  prune-watched fuel timestamp t small = prune_loop-watched fuel timestamp [] t small
