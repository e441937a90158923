-- ===== src/Db/Operations.antt =====
-- db/operations.go and db/batch.go: the operations on one model, which read from the store and
-- write into a batch. Reads do not see the batch, and a write into a batch cannot fail. The
-- batch is given back with an error too, since it keeps what was written before.
use x_mesh.Prelude.{
  ℕ, ◌+◌, ◌%◌, ◌^◌, Bool, true, false, Option, none, some, List, [], ◌∷◌, ◌++◌, map, ◌==◌,
  if◌then◌else◌,
}
use x_mesh.Errors.{
  Error, other, not_found, already_exists, incorrect_type, is_key_not_found, Result, ok, err, ◌>>=◌,
}
use x_mesh.Db.Escape.{Bytes}
use x_mesh.Db.Keys.{
  GoType, named, ptr, same_type, ColInfo, Index, primary_key_for_id, count_key, keys_for_model,
}
use x_mesh.Db.Ldb.{Op, put, delete, Ldb, Codec}

abbrev pub is_empty : Bytes → Bool
is_empty [] = true
is_empty (b ∷ bs) = false

-- `checkModelType`: the type itself, or a pointer to it
unfoldable pub check_model_type : GoType → GoType → Option Error
check_model_type expected (named n) =
    if same_type expected (named n) then none else some incorrect_type
check_model_type expected (ptr t) =
    if same_type expected (ptr t)
    then none
    else if same_type expected t
    then none
    else some incorrect_type

-- the sum of two `int`
unfoldable pub add_int : ℕ → ℕ → ℕ
add_int a b = (a + b) % 2 ^ 64

module _ {Model Store : Type 0} (codec : Codec Model) (ldb : Ldb Store) (info : ColInfo Model) where
  -- `type` is that of the model that the caller gives to be filled
  unfoldable pub find_by_id : Store → Bytes → GoType → Result Model
  unfolding check_model_type primary_key_for_id
  find_by_id s id type = elim (check_model_type info.model_type type) [
    | some e ↦ err e
    | none ↦ elim (ldb.get s (primary_key_for_id info id)) [
      | err e ↦ err (if is_key_not_found e then not_found id else e)
      | ok found ↦ codec.unmarshal found
    ]
  ]

  unfoldable pub find_existing_model : Store → Bytes → Result Model
  find_existing_model s primary_key = ldb.get s primary_key >>= codec.unmarshal

  -- the two loops of `saveIndexesWithTransaction`
  unfoldable pub save_indexes : List (Index Model) → Model → List Op → List Op
  save_indexes [] model batch = batch
  save_indexes (index ∷ indexes) model batch =
      save_indexes indexes model
        (batch ++ map (λ key. put key []) (keys_for_model codec.id info index model))

  unfoldable pub delete_indexes : List (Index Model) → Model → List Op → List Op
  delete_indexes [] model batch = batch
  delete_indexes (index ∷ indexes) model batch =
      delete_indexes indexes model (batch ++ map delete (keys_for_model codec.id info index model))

  unfoldable pub insert_with_transaction : Store → Model → List Op → Option Error × List Op
  insert_with_transaction s model batch =
      if is_empty (codec.id model)
      then (some (other "can't insert model with empty ID"), batch)
      else elim (check_model_type info.model_type (codec.type_of model)) [
        | some e ↦ (some e, batch)
        | none ↦ elim (codec.marshal model) [
          | err e ↦ (some e, batch)
          | ok value ↦ elim (ldb.has s (primary_key_for_id info (codec.id model))) [
            | err e ↦ (some e, batch)
            | ok true ↦ (some (already_exists (codec.id model)), batch)
            | ok false ↦ (
              none,
              save_indexes info.indexes model
                  (batch ++ put (primary_key_for_id info (codec.id model)) value ∷ []),
            )
          ]
        ]
      ]

  unfoldable pub update_with_transaction : Store → Model → List Op → Option Error × List Op
  update_with_transaction s model batch =
      if is_empty (codec.id model)
      then (some (other "can't update model with empty ID"), batch)
      else elim (check_model_type info.model_type (codec.type_of model)) [
        | some e ↦ (some e, batch)
        | none ↦ elim (ldb.has s (primary_key_for_id info (codec.id model))) [
          | err e ↦ (some e, batch)
          | ok false ↦ (some (not_found (codec.id model)), batch)
          | ok true ↦ elim (find_existing_model s (primary_key_for_id info (codec.id model))) [
            | err e ↦ (some e, batch)
            | ok existing ↦
                let outdated = delete_indexes info.indexes existing batch in
                elim (codec.marshal model) [
                  | err e ↦ (some e, outdated)
                  | ok value ↦ (
                    none,
                    save_indexes info.indexes model
                        (outdated ++ put (primary_key_for_id info (codec.id model)) value ∷ []),
                  )
                ]
          ]
        ]
      ]

  unfoldable pub delete_with_transaction : Store → Bytes → List Op → Option Error × List Op
  delete_with_transaction s id batch =
      if is_empty id
      then (some (other "can't delete model with empty ID"), batch)
      else elim (find_existing_model s (primary_key_for_id info id)) [
        | err e ↦ (some (if is_key_not_found e then not_found id else e), batch)
        | ok latest ↦ (
          none,
          delete_indexes info.indexes latest (batch ++ delete (primary_key_for_id info id) ∷ []),
        )
      ]

  unfoldable pub count : Store → Result ℕ
  count s = elim (ldb.get s (count_key info)) [
    | err e ↦ if is_key_not_found e then ok 0 else err e
    | ok encoded ↦ codec.atoi encoded
  ]

  -- the operation that stores a new count
  unfoldable pub count_op : ℕ → Op
  count_op n = if n == 0 then delete (count_key info) else put (count_key info) (codec.itoa n)

  unfoldable pub update_count_with_transaction : Store → ℕ → List Op → Option Error × List Op
  update_count_with_transaction s diff batch = elim (count s) [
    | err e ↦ (some e, batch)
    | ok existing ↦ (none, batch ++ count_op (add_int existing diff) ∷ [])
  ]
