-- ===== src/ExpirationWatch/Calls.antt =====
-- The watcher of expiration times (expirationwatch/expiration_watcher.go) under any sequence of calls of
-- Add and Remove, against sets of IDs, one for each second.
use x_mesh.Prelude.{ℕ, ◌≡◌, refl, ap, ◌∙◌, List, [], ◌∷◌, ◌==◌, if◌then◌else◌}
use x_mesh.Db.Escape.{Bytes}
use x_mesh.StringSet.{add_to_set, remove_from_set}
use x_mesh.ExpirationWatch.{RbTree, RbTreeLaws, unix, add_item, remove_item}
use x_mesh.ExpirationWatch.Watched.{watched, add_item-watched, remove_item-watched}

-- a call of Add or Remove
pub data WatchCall : Type 0 where
  adds removes : ℕ → Bytes → WatchCall

-- What the calls make of the set of a second.
abbrev pub set_after : ℕ → List WatchCall → List Bytes → List Bytes
set_after key [] ids = ids
set_after key (adds expiration id ∷ calls) ids =
    set_after key calls (if unix expiration == key then add_to_set id ids else ids)
set_after key (removes expiration id ∷ calls) ids =
    set_after key calls (if unix expiration == key then remove_from_set id ids else ids)

module _ {T : Type 0} (tree : RbTree T) where
  -- what the calls make of the watcher
  abbrev pub run_calls : List WatchCall → T → T
  run_calls [] t = t
  run_calls (adds expiration id ∷ calls) t = run_calls calls (add_item tree expiration id t)
  run_calls (removes expiration id ∷ calls) t = run_calls calls (remove_item tree expiration id t)

  -- If the tree is a map with keys in order, then after any calls of Add and Remove the IDs
  -- watched for a second are those of a set for that second on which the same calls were made.
  pub run_calls-watched :
      (laws : RbTreeLaws tree) (calls : List WatchCall) (t : T) (key : ℕ)
      → watched tree laws (run_calls calls t) key ≡ set_after key calls (watched tree laws t key)
  run_calls-watched laws [] t key = refl
  run_calls-watched laws (adds expiration id ∷ calls) t key =
      run_calls-watched laws calls (add_item tree expiration id t) key
      ∙ ap (set_after key calls) (add_item-watched tree laws expiration id t key)
  run_calls-watched laws (removes expiration id ∷ calls) t key =
      run_calls-watched laws calls (remove_item tree expiration id t) key
      ∙ ap (set_after key calls) (remove_item-watched tree laws expiration id t key)
