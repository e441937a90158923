-- ===== src/Tests/Globals.antt =====
-- Runs of a global transaction.
use x_mesh.Prelude.{
  ◌≡◌, refl, ◌⊎◌, Option, none, some, List, [], ◌∷◌, ◌++◌, All, false, arith, ℕ, ap,
}
use x_mesh.Errors.{Error, committed, ok}
use x_mesh.Db.Keys.{ColInfo, named}
use x_mesh.Db.Ldb.{Op}
use x_mesh.Db.Operations.{count, update_count_with_transaction}
use x_mesh.Db.Transaction.{Call, returns, blocks, Db}
use x_mesh.Db.Global.{
  InternalCount, GlobalTransaction, global_check_state, global_commit, update_counts,
}
use x_mesh.Db.Global.Commit.{CannotCommitAll, CountOps, global_opened, global_commit-cases}
use x_mesh.Db.Global.Counts.{AreDistinct, CountMoved, global_commit-CountMoved}
use x_mesh.Tests.Databases.{
  Map, map_ldb, bytes_codec, map_laws, bytes_laws, orders, empty_db, refusing_ldb,
}

abbrev headers : ColInfo (List ℕ)
headers = record { name = 104 ∷ []; model_type = named 8; indexes = [] }

-- Two new orders and three new headers.
abbrev two_counts : List (InternalCount (List ℕ))
two_counts = record { info = orders; diff = 2 } ∷ record { info = headers; diff = 3 } ∷ []

head_of : List ℕ → ℕ
head_of [] = 0
head_of (b ∷ bs) = b

two_counts-AreDistinct : AreDistinct two_counts
unfolding head_of
two_counts-AreDistinct = (((λ e. omega (arith, ap head_of e)), tt), (tt, tt))

abbrev result : Call ((Option Error × Db Map) × GlobalTransaction (List ℕ))
result = global_commit bytes_codec map_ldb empty_db (global_opened [] two_counts)

abbrev db_after : Call ((Option Error × Db Map) × GlobalTransaction (List ℕ)) → Db Map
db_after (returns (r, txn)) = r.1
db_after blocks = empty_db

abbrev txn_after :
    Call ((Option Error × Db Map) × GlobalTransaction (List ℕ)) → GlobalTransaction (List ℕ)
txn_after (returns (r, txn)) = txn
txn_after blocks = global_opened [] []

committed_ok : result ≡ returns ((none, db_after result), txn_after result)
unfolding global_commit global_check_state update_counts update_count_with_transaction count
committed_ok = refl

global_commit-CountMoved_example :
    All (CountMoved bytes_codec map_ldb empty_db.store (db_after result).store) two_counts
global_commit-CountMoved_example =
    global_commit-CountMoved bytes_codec map_ldb map_laws (λ s key. refl) bytes_laws empty_db
      (db_after result) [] two_counts (txn_after result) two_counts-AreDistinct committed_ok

global_commit-cases_example :
    ((e : Error) × CannotCommitAll bytes_codec refusing_ldb empty_db [] two_counts e
      × (global_commit bytes_codec refusing_ldb empty_db (global_opened [] two_counts) ≡ blocks))
    ⊎ ((ops : List Op) × (store : Map) × (txn' : GlobalTransaction (List ℕ)) × CountOps bytes_codec
          refusing_ldb empty_db.store two_counts ops
        × (refusing_ldb.write empty_db.store ([] ++ ops) ≡ ok store)
        × (global_check_state txn' ≡ some committed)
        × (txn'.is_held ≡ false)
        × (global_commit bytes_codec refusing_ldb empty_db (global_opened [] two_counts)
            ≡ returns ((none, record { store = store; locked = false }), txn')))
global_commit-cases_example = global_commit-cases bytes_codec refusing_ldb empty_db [] two_counts
