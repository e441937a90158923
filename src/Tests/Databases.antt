-- ===== src/Tests/Databases.antt =====
-- Runs of the package db on a store that is a function, with models that are their own IDs.
use x_mesh.Prelude.{
  List, length, ◌≤◌, ℕ, ◌≡◌, ◌≢◌, refl, ap, sym, false, Option, none, some, ◌⊎◌, [], ◌∷◌,
}
use x_mesh.Errors.{Error, other, committed, Result, ok, err, key_not_found, not_found}
use x_mesh.Db.Escape.{Bytes, escape, escape_byte, unescape, unescape-escape}
use x_mesh.Db.Keys.{
  GoType, named, ColInfo, Index, primary_key_for_id, keys_for_model, count_key, index_prefix,
  index_key, primary_key_from_index_key,
}
use x_mesh.Db.Keys.Laws.{primary_key_from_index_key-index_key}
use x_mesh.Db.Ldb.{Ldb, Codec, LdbLaws, CodecLaws, after, answer, is_some}
use x_mesh.Db.Operations.{
  check_model_type, count, insert_with_transaction, update_count_with_transaction,
  delete_with_transaction, find_existing_model, save_indexes, count_op, find_by_id, add_int,
}
use x_mesh.Db.Transaction.{
  Call, returns, blocks, Db, Transaction, check_state, commit, minus_one, insert_model,
  delete_model,
}
use x_mesh.Db.Query.{Iterator, Query, set_max, new_query, all_filter, run, count_query}
use x_mesh.Db.Query.Unique.{Leads, count_query-run}
use x_mesh.StringSet.{contains}
use x_mesh.Db.Transaction.Commit.{CannotCommit, Written, opened, commit-cases}
use x_mesh.Db.Transaction.Single.{insert_model-find_by_id, delete_model-find_by_id}

abbrev pub Map : Type 0
Map = Bytes → Option Bytes

abbrev pub map_ldb : Ldb Map
map_ldb = record {
  get = λ s key. answer (s key);
  has = λ s key. ok (is_some (s key));
  write = λ s ops. ok (λ key. after key ops (s key));
}

abbrev pub first_number : Bytes → Result ℕ
first_number [] = err key_not_found
first_number (n ∷ ns) = ok n

abbrev pub bytes_codec : Codec Bytes
bytes_codec = record {
  id = λ m. m;
  type_of = λ m. named 7;
  marshal = λ m. ok m;
  unmarshal = λ bs. ok bs;
  itoa = λ n. n ∷ [];
  atoi = first_number;
}

pub answer-ok : (o : Option Bytes) (value : Bytes) → answer o ≡ ok value → o ≡ some value
answer-ok none value h = cc
answer-ok (some v) value h = cc

pub answer-none : (o : Option Bytes) → answer o ≡ err key_not_found → o ≡ none
answer-none none h = refl
answer-none (some v) h = cc

pub ok-injective : {A : Type 0} {a b : A} → ok a ≡ ok b → a ≡ b
ok-injective h = cc

abbrev pub map_laws : LdbLaws map_ldb
map_laws = record {
  content = λ s. s;
  get-ok = λ s key value h. answer-ok (s key) value h;
  has-ok = λ s key b h. ok-injective h;
  get-key_not_found = λ s key h. answer-none (s key) h;
  write-ok = λ s s' ops h key. ap (λ t. t key) (sym (ok-injective h));
}

abbrev pub bytes_laws : CodecLaws bytes_codec
bytes_laws = record {
  unmarshal-marshal = λ m value h. ap ok (sym (ok-injective h));
  atoi-itoa = λ n h. refl;
}

-- an index on all of the bytes
abbrev whole : Index Bytes
whole = record { name = 105 ∷ []; getter = λ m. m ∷ [] }

abbrev pub orders : ColInfo Bytes
orders = record { name = 58 ∷ 92 ∷ []; model_type = named 7; indexes = whole ∷ [] }

abbrev pub empty_db : Db Map
empty_db = record { store = λ key. none; locked = false }

abbrev db_of : Call (Option Error × Db Map) → Db Map
db_of (returns (e, db)) = db
db_of blocks = empty_db

abbrev inserted : Db Map
inserted = db_of (insert_model bytes_codec map_ldb orders (58 ∷ 1 ∷ []) empty_db)

abbrev deleted : Db Map
deleted = db_of (delete_model bytes_codec map_ldb orders (58 ∷ 1 ∷ []) inserted)

inserted_ok :
    insert_model bytes_codec map_ldb orders (58 ∷ 1 ∷ []) empty_db ≡ returns (none, inserted)
unfolding insert_model insert_with_transaction check_model_type update_count_with_transaction count
inserted_ok = refl

deleted_ok :
    delete_model bytes_codec map_ldb orders (58 ∷ 1 ∷ []) inserted ≡ returns (none, deleted)
unfolding delete_model insert_model insert_with_transaction check_model_type
    update_count_with_transaction count delete_with_transaction find_existing_model save_indexes
    keys_for_model count_op count_key primary_key_for_id index_prefix escape escape_byte
deleted_ok = refl

insert_model-find_by_id_example :
    (find_by_id bytes_codec map_ldb orders empty_db.store (58 ∷ 1 ∷ []) (named 7)
      ≡ err (not_found (58 ∷ 1 ∷ [])))
    × (find_by_id bytes_codec map_ldb orders inserted.store (58 ∷ 1 ∷ []) (named 7)
        ≡ ok (58 ∷ 1 ∷ []))
    × ((id : Bytes) (type : GoType)
        → 58 ∷ 1 ∷ [] ≢ id
        → find_by_id bytes_codec map_ldb orders inserted.store id type
          ≡ find_by_id bytes_codec map_ldb orders empty_db.store id type)
    × ((n : ℕ) × (count bytes_codec map_ldb orders empty_db.store ≡ ok n)
        × (count bytes_codec map_ldb orders inserted.store ≡ ok (add_int n 1)))
    × (inserted.locked ≡ false)
insert_model-find_by_id_example =
    insert_model-find_by_id bytes_codec map_ldb orders map_laws (λ s key. refl) bytes_laws
      (58 ∷ 1 ∷ []) empty_db inserted inserted_ok

delete_model-find_by_id_example :
    (find_by_id bytes_codec map_ldb orders deleted.store (58 ∷ 1 ∷ []) (named 7)
      ≡ err (not_found (58 ∷ 1 ∷ [])))
    × ((id : Bytes) (type : GoType)
        → 58 ∷ 1 ∷ [] ≢ id
        → find_by_id bytes_codec map_ldb orders deleted.store id type
          ≡ find_by_id bytes_codec map_ldb orders inserted.store id type)
    × ((n : ℕ) × (count bytes_codec map_ldb orders inserted.store ≡ ok n)
        × (count bytes_codec map_ldb orders deleted.store ≡ ok (add_int n minus_one)))
    × (deleted.locked ≡ false)
unfolding check_model_type
delete_model-find_by_id_example =
    delete_model-find_by_id bytes_codec map_ldb orders map_laws (λ s key. refl) bytes_laws
      (58 ∷ 1 ∷ []) (named 7) inserted deleted refl deleted_ok

-- A store that refuses every write.
abbrev pub refusing_ldb : Ldb Map
refusing_ldb = record map_ldb { write = λ s ops. err (other "disk full") }

commit-cases_example :
    ((e : Error) × CannotCommit bytes_codec refusing_ldb orders empty_db 1 [] e
      × (commit bytes_codec refusing_ldb orders empty_db (opened [] 1 []) ≡ blocks))
    ⊎ ((store : Map) × (txn' : Transaction) × Written bytes_codec refusing_ldb orders empty_db 1 []
          store
        × (check_state txn' ≡ some committed)
        × (txn'.is_held ≡ false)
        × (commit bytes_codec refusing_ldb orders empty_db (opened [] 1 [])
            ≡ returns ((none, record { store = store; locked = false }), txn')))
commit-cases_example = commit-cases bytes_codec refusing_ldb orders empty_db [] 1 []

unescape-escape_example : unescape (escape (58 ∷ 92 ∷ 99 ∷ [])) ≡ ok (58 ∷ 92 ∷ 99 ∷ [])
unescape-escape_example = unescape-escape (58 ∷ 92 ∷ 99 ∷ [])

primary_key_from_index_key-index_key_example :
    primary_key_from_index_key orders whole (index_key orders whole (58 ∷ 1 ∷ []) (58 ∷ []))
    ≡ some (primary_key_for_id orders (58 ∷ 1 ∷ []))
primary_key_from_index_key-index_key_example =
    primary_key_from_index_key-index_key orders whole (58 ∷ 1 ∷ []) (58 ∷ [])

abbrev order_id : Bytes
order_id = 58 ∷ 1 ∷ []

-- The one model that is stored, found by two entries of the index.
abbrev entry : Bytes
entry = index_key orders whole order_id order_id

abbrev iterator : Iterator
iterator = record { keys = entry ∷ entry ∷ []; error = none }

abbrev query : Query Bytes
query = set_max 5 (new_query (all_filter orders whole))

entry-Leads : Leads bytes_codec map_ldb orders inserted.store whole entry
unfolding insert_model insert_with_transaction check_model_type update_count_with_transaction count
    save_indexes keys_for_model count_op count_key primary_key_for_id index_key index_prefix escape
    escape_byte primary_key_from_index_key
entry-Leads = (primary_key_for_id orders order_id, order_id, order_id, refl, refl, refl)

count_query-run_example :
    (models : List Bytes) × (run bytes_codec map_ldb orders inserted.store iterator query
      ≡ ok models)
    × (count_query bytes_codec map_ldb orders inserted.store iterator query ≡ ok (length models))
    × ((query.max ≡ 0) ⊎ (length models ≤ query.max))
unfolding set_max new_query all_filter
count_query-run_example =
    count_query-run bytes_codec map_ldb orders inserted.store iterator query refl refl
      (entry-Leads, (entry-Leads, tt))

run_twice : run bytes_codec map_ldb orders inserted.store iterator query ≡ ok (order_id ∷ [])
unfolding insert_model insert_with_transaction check_model_type update_count_with_transaction count
    save_indexes keys_for_model count_op count_key primary_key_for_id index_key index_prefix escape
    escape_byte primary_key_from_index_key run set_max new_query all_filter contains
run_twice = refl
