-- ===== src/Db/Transaction/Appends.antt =====
-- What the operations of a transaction (db/transaction.go) put into its batch.
use x_mesh.Prelude.{
  ◌≡◌, refl, ap, sym, ◌∙◌, ◌⊎◌, inl, inr, Option, none, some, List, [], ◌∷◌, ◌++◌, append-nil,
  append_assoc, All, All-append, Bool-cases, Option-cases,
}
use x_mesh.Errors.{Error, Result-cases}
use x_mesh.Db.Escape.{Bytes}
use x_mesh.Db.Keys.{ColInfo, primary_key_for_id}
use x_mesh.Db.Ldb.{Op, put, delete, Ldb, Codec, op_key}
use x_mesh.Db.Operations.{
  is_empty, check_model_type, insert_with_transaction, update_with_transaction,
  delete_with_transaction, find_existing_model, save_indexes,
}
use x_mesh.Db.Transaction.Effects.{OnIndex, save_indexes-ops, delete_indexes-ops}

module _ {Model Store : Type 0} (codec : Codec Model) (ldb : Ldb Store) (info : ColInfo Model) where
  -- an operation on the model with an ID, or on an index entry
  abbrev pub Concerns : Bytes → Op → Type 0
  Concerns id op = (op_key op ≡ primary_key_for_id info id) ⊎ OnIndex codec ldb info op

  -- What an operation on one ID makes of a batch: without an error it appends what concerns the ID;
  -- with one it appends at most operations on index entries.
  abbrev pub Appends : Bytes → List Op → Option Error × List Op → Type 0
  Appends id batch r =
      (ops : List Op) × (r.1 ≡ batch ++ ops)
      × (((r.0 ≡ none) × All (Concerns id) ops)
          ⊎ ((e : Error) × (r.0 ≡ some e) × All (OnIndex codec ldb info) ops))

  fails : (id : Bytes) (batch : List Op) (e : Error) → Appends id batch (some e, batch)
  fails id batch e = ([], sym (append-nil batch), inr (e, refl, tt))

  concerned :
      (id : Bytes) (ops : List Op) → All (OnIndex codec ldb info) ops → All (Concerns id) ops
  concerned id [] h = tt
  concerned id (op ∷ ops) (h, hs) = (inr h, concerned id ops hs)

  pub insert_with_transaction-Appends :
      (s : Store) (model : Model) (batch : List Op)
      → Appends (codec.id model) batch (insert_with_transaction codec ldb info s model batch)
  unfolding insert_with_transaction
  insert_with_transaction-Appends s model batch =
      let id = codec.id model in
      elim (Bool-cases (is_empty id)) [
        | inl i ↦ rw (i, insert_with_transaction) (fails id batch _)
        | inr i ↦ elim (Option-cases (check_model_type info.model_type (codec.type_of model))) [
          | inr (e, c) ↦ rw (i, c, insert_with_transaction) (fails id batch e)
          | inl c ↦ elim (Result-cases (codec.marshal model)) [
            | inr (e, m) ↦ rw (i, c, m, insert_with_transaction) (fails id batch e)
            | inl (value, m) ↦ elim (Result-cases (ldb.has s (primary_key_for_id info id))) [
              | inr (e, x) ↦ rw (i, c, m, x, insert_with_transaction) (fails id batch e)
              | inl (exists, x) ↦ elim (Bool-cases exists) [
                | inl t ↦ rw (i, c, m, x, t, insert_with_transaction) (fails id batch _)
                | inr f ↦
                    let op = put (primary_key_for_id info id) value in
                    let (ops, e, h) =
                      save_indexes-ops codec ldb info info.indexes model (batch ++ op ∷ []) in
                    rw (i, c, m, x, f, insert_with_transaction)
                      (
                        op ∷ ops,
                        e ∙ append_assoc batch (op ∷ []) ops,
                        inl (refl, (inl refl, concerned id ops h)),
                      )
              ]
            ]
          ]
        ]
      ]

  pub delete_with_transaction-Appends :
      (s : Store) (id : Bytes) (batch : List Op)
      → Appends id batch (delete_with_transaction codec ldb info s id batch)
  unfolding delete_with_transaction
  delete_with_transaction-Appends s id batch = elim (Bool-cases (is_empty id)) [
    | inl i ↦ rw (i, delete_with_transaction) (fails id batch _)
    | inr i ↦
        elim (Result-cases (find_existing_model codec ldb info s (primary_key_for_id info id))) [
          | inr (e, f) ↦ rw (i, f, delete_with_transaction) (fails id batch _)
          | inl (latest, f) ↦
              let op = delete (primary_key_for_id info id) in
              let (ops, e, h) =
                delete_indexes-ops codec ldb info info.indexes latest (batch ++ op ∷ []) in
              rw (i, f, delete_with_transaction)
                (
                  op ∷ ops,
                  e ∙ append_assoc batch (op ∷ []) ops,
                  inl (refl, (inl refl, concerned id ops h)),
                )
        ]
  ]

  -- The end of an update that works.
  updated :
      (model : Model) (batch : List Op) (value : Bytes) (outdated old : List Op)
      → outdated ≡ batch ++ old
      → All (OnIndex codec ldb info) old
      → Appends (codec.id model) batch (
        none,
        save_indexes codec ldb info info.indexes model
            (outdated ++ put (primary_key_for_id info (codec.id model)) value ∷ []),
      )
  updated model batch value outdated old d h =
      let id = codec.id model in
      let op = put (primary_key_for_id info id) value in
      let (ops, e, h') = save_indexes-ops codec ldb info info.indexes model (outdated ++ op ∷ []) in
      (
        old ++ op ∷ ops,
        e
            ∙ append_assoc outdated (op ∷ []) ops
            ∙ ap (λ b. b ++ op ∷ ops) d
            ∙ append_assoc batch old (op ∷ ops),
        inl (
          refl,
          All-append (Concerns id) old (op ∷ ops) (concerned id old h)
              (inl refl, concerned id ops h'),
        ),
      )

  pub update_with_transaction-Appends :
      (s : Store) (model : Model) (batch : List Op)
      → Appends (codec.id model) batch (update_with_transaction codec ldb info s model batch)
  unfolding update_with_transaction
  update_with_transaction-Appends s model batch =
      let id = codec.id model in
      let pk = primary_key_for_id info id in
      elim (Bool-cases (is_empty id)) [
        | inl i ↦ rw (i, update_with_transaction) (fails id batch _)
        | inr i ↦ elim (Option-cases (check_model_type info.model_type (codec.type_of model))) [
          | inr (e, c) ↦ rw (i, c, update_with_transaction) (fails id batch e)
          | inl c ↦ elim (Result-cases (ldb.has s pk)) [
            | inr (e, x) ↦ rw (i, c, x, update_with_transaction) (fails id batch e)
            | inl (exists, x) ↦ elim (Bool-cases exists) [
              | inr f ↦ rw (i, c, x, f, update_with_transaction) (fails id batch _)
              | inl t ↦ elim (Result-cases (find_existing_model codec ldb info s pk)) [
                | inr (e, g) ↦ rw (i, c, x, t, g, update_with_transaction) (fails id batch e)
                | inl (existing, g) ↦
                    let (old, d, h) =
                      delete_indexes-ops codec ldb info info.indexes existing batch in
                    elim (Result-cases (codec.marshal model)) [
                      | inr (e, m) ↦
                          rw (i, c, x, t, g, m, update_with_transaction) (old, d, inr (e, refl, h))
                      | inl (value, m) ↦
                          rw (i, c, x, t, g, m, update_with_transaction)
                            (updated model batch value _ old d h)
                    ]
              ]
            ]
          ]
        ]
      ]
