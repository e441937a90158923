-- ===== src/ExpirationWatch.antt =====
-- expirationwatch/expiration_watcher.go: the watcher of expiration times, over a sorted map from
-- seconds to sets of IDs. The mutex makes each use of the map one step.
pub mod Watched
pub mod Calls
use x_mesh.Prelude.{
  ℕ, zero, suc, ◌+◌, ◌*◌, ◌/◌, ◌<◌, ◌≤◌, ◌≡◌, ◌≢◌, Bool, true, false, Option, none, some, List, [],
  ◌∷◌, ◌++◌, map, ◌==◌, ltb, if◌then◌else◌,
}
use x_mesh.Db.Escape.{Bytes}
use x_mesh.Db.Operations.{is_empty}
use x_mesh.StringSet.{add_to_set, remove_from_set}

-- What the watcher uses of github.com/ocdogan/rbt: a map with keys in order.
pub record RbTree (T : Type 0) : Type 0 where
  pub get : T → ℕ → Option (List Bytes)
  pub insert : ℕ → List Bytes → T → T
  pub delete : ℕ → T → T
  pub min_entry : T → Option (ℕ × List Bytes)

-- What it promises: the map behind it, and that the least key is found. `size` is the number of keys.
pub record RbTreeLaws {T : Type 0} (tree : RbTree T) : Type 0 where
  pub size : T → ℕ
  pub get-insert :
      (t : T) (k key : ℕ) (ids : List Bytes)
      → tree.get (tree.insert k ids t) key ≡ (if k == key then some ids else tree.get t key)
  pub get-delete :
      (t : T) (k key : ℕ)
      → tree.get (tree.delete k t) key ≡ (if k == key then none else tree.get t key)
  pub min-none : (t : T) → tree.min_entry t ≡ none → (key : ℕ) → tree.get t key ≡ none
  pub min-some :
      (t : T) (k : ℕ) (ids : List Bytes)
      → tree.min_entry t ≡ some (k, ids)
      → (tree.get t k ≡ some ids) × ((key : ℕ) → key < k → tree.get t key ≡ none)
  pub size-delete :
      (t : T) (k : ℕ) (ids : List Bytes) → tree.get t k ≡ some ids → size (tree.delete k t) < size t

-- The expiration time is in whole seconds.
pub record ExpiredItem : Type 0 where
  pub expiration_timestamp : ℕ
  pub id : Bytes

abbrev pub nanoseconds : ℕ
nanoseconds = 1000000000

-- `Unix()` of a time in nanoseconds
unfoldable pub unix : ℕ → ℕ
unix time = time / nanoseconds

abbrev pub has_none : List Bytes → Bool
has_none [] = true
has_none (id ∷ ids) = false

module _ {T : Type 0} (tree : RbTree T) where
  unfoldable pub add_item : ℕ → Bytes → T → T
  unfolding unix add_to_set
  add_item expiration id t = elim (tree.get t (unix expiration)) [
    | none ↦ tree.insert (unix expiration) (add_to_set id []) t
    | some ids ↦ tree.insert (unix expiration) (add_to_set id ids) t
  ]

  unfoldable pub remove_item : ℕ → Bytes → T → T
  unfolding unix remove_from_set
  remove_item expiration id t = elim (tree.get t (unix expiration)) [
    | none ↦ t
    | some ids ↦
        let ids' = remove_from_set id ids in
        if has_none ids'
        then tree.delete (unix expiration) t
        else tree.insert (unix expiration) ids' t
  ]

  -- The loop of `Prune` with its `pruned` so far; each round deletes the least key. Without fuel the
  -- result is `none`.
  unfoldable pub prune_loop : ℕ → ℕ → List ExpiredItem → T → Option (List ExpiredItem × T)
  prune_loop zero timestamp pruned t = none
  prune_loop (suc fuel) timestamp pruned t = elim (tree.min_entry t) [
    | none ↦ some (pruned, t)
    | some (key, ids) ↦ elim (ltb timestamp (key * nanoseconds)) [
      | true ↦ some (pruned, t)
      | false ↦
          prune_loop fuel timestamp
            (pruned ++ map (λ id. record { expiration_timestamp = key; id = id }) ids)
            (tree.delete key t)
    ]
  ]

  -- `Prune` holds the lock of the tree for `Min` and for `Delete`, but not from one to the other. Its only
  -- caller, `handleOrderExpirations`, runs with `handleBlockEventsMu` of the order watcher held for
  -- writing, and all calls of `Add` and `Remove` but those of `New`, which come first, run with that
  -- mutex held too. So no other call comes in between, and the whole of `Prune` is one step.
  unfoldable pub prune : ℕ → ℕ → T → Option (List ExpiredItem × T)
  unfolding prune_loop
  prune fuel timestamp t = prune_loop fuel timestamp [] t
