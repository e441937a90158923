-- ===== src/Tests/Totals.antt =====
-- Insertions that return, with an error and without.
use x_mesh.Prelude.{Option, true, ℕ, ◌≡◌, refl, none, some, List, [], ◌∷◌, false}
use x_mesh.Errors.{Error, already_exists}
use x_mesh.Db.Operations.{
  check_model_type, count, find_by_id, insert_with_transaction, delete_with_transaction,
  update_count_with_transaction, find_existing_model,
}
use x_mesh.Db.Transaction.{
  Call, blocks, Transaction, commit, queue_insert, queue_delete, check_state, returns, Db,
  insert_model,
}
use x_mesh.Db.Transaction.Total.{insert_model-already_exists, insert_model-returns}
use x_mesh.Db.Keys.{named, primary_key_for_id}
use x_mesh.StringSet.{contains}
use x_mesh.Db.Transaction.Commit.{opened}
use x_mesh.Db.Transaction.Untouched.{
  Request, insert_request, delete_request, run_requests, run_requests-find_by_id,
}
use x_mesh.Tests.Databases.{map_laws, Map, map_ldb, bytes_codec, orders}

-- a store that holds every key, and one that holds none
abbrev full : Map
full = λ key. some []

abbrev bare : Map
bare = λ key. none

abbrev model : List ℕ
model = 58 ∷ 1 ∷ []

insert_model-already_exists_example :
    insert_model bytes_codec map_ldb orders model (record { store = full; locked = false })
    ≡ returns (some (already_exists model), record { store = full; locked = false })
unfolding check_model_type
insert_model-already_exists_example =
    insert_model-already_exists bytes_codec map_ldb orders model full model refl refl refl refl

insert_model-returns_example :
    (db' : Db Map) × (insert_model bytes_codec map_ldb orders model
        (record { store = bare; locked = false })
      ≡ returns (none, db'))
unfolding check_model_type count
insert_model-returns_example =
    insert_model-returns bytes_codec map_ldb orders model bare model refl refl refl 0 refl refl
      (λ ops. (_, refl))

-- A transaction that inserts one model twice, the second time in vain, and deletes one that is not
-- there.
abbrev requests : List (Request (List ℕ))
requests = insert_request model ∷ insert_request model ∷ delete_request (7 ∷ []) ∷ []

abbrev built : Transaction
built =
    run_requests bytes_codec map_ldb orders (record { store = bare; locked = true }) requests
      (opened [] 0 [])

abbrev committed_result : Call ((Option Error × Db Map) × Transaction)
committed_result = commit bytes_codec map_ldb orders (record { store = bare; locked = true }) built

abbrev db_of_result : Call ((Option Error × Db Map) × Transaction) → Db Map
db_of_result (returns (r, txn)) = r.1
db_of_result blocks = record { store = bare; locked = true }

abbrev txn_of_result : Call ((Option Error × Db Map) × Transaction) → Transaction
txn_of_result (returns (r, txn)) = txn
txn_of_result blocks = opened [] 0 []

run_requests-find_by_id_example :
    find_by_id bytes_codec map_ldb orders (db_of_result committed_result).store (9 ∷ []) (named 7)
    ≡ find_by_id bytes_codec map_ldb orders bare (9 ∷ []) (named 7)
unfolding commit run_requests queue_insert queue_delete contains insert_with_transaction
    delete_with_transaction check_model_type update_count_with_transaction count check_state
    find_existing_model primary_key_for_id
run_requests-find_by_id_example =
    run_requests-find_by_id bytes_codec map_ldb orders map_laws (λ s key. refl)
      (record { store = bare; locked = true }) (db_of_result committed_result) requests
      (txn_of_result committed_result) (9 ∷ []) (named 7) refl refl
