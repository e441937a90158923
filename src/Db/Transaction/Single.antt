-- ===== src/Db/Transaction/Single.antt =====
-- `Insert` and `Delete` of a collection (db/collection.go), seen through `FindByID` and `Count`.
use x_mesh.Prelude.{
  ℕ, ◌≡◌, ◌≢◌, ◌<◌, ◌^◌, refl, ap, sym, subst, ◌∙◌, inl, inr, false, Option, none, some, List, [],
  ◌∷◌, Bool-cases, Option-cases, All, ◌==◌, ==_iff, arith,
}
use x_mesh.Errors.{not_found, ok, err, Result-cases}
use x_mesh.Db.Escape.{Bytes}
use x_mesh.Db.Keys.{GoType, ColInfo, primary_key_for_id, count_key}
use x_mesh.Db.Keys.Laws.{primary_key_for_id-injective}
use x_mesh.Db.Ldb.{
  Op, put, delete, Ldb, Codec, LdbLaws, CodecLaws, op_key, after, after-others, answer, is_some,
  same_bytes_refl,
}
use x_mesh.Db.Operations.{
  is_empty, check_model_type, add_int, count, count_op, insert_with_transaction,
  delete_with_transaction, find_existing_model, find_by_id,
}
use x_mesh.Db.Transaction.{returns, Db, insert_model, delete_model, minus_one}
use x_mesh.Db.Transaction.Commit.{Written, in_transaction-returns}
use x_mesh.Db.Transaction.Effects.{
  OnIndex, save_indexes-ops, delete_indexes-ops, after-model_batch, after-count_batch,
}

after-put :
    (key value : Bytes) (old : Option Bytes) → after key (put key value ∷ []) old ≡ some value
after-put key value old = rw (same_bytes_refl key) refl

after-delete : (key : Bytes) (old : Option Bytes) → after key (delete key ∷ []) old ≡ none
after-delete key old = rw (same_bytes_refl key) refl

absent : (o : Option Bytes) → is_some o ≡ false → o ≡ none
absent none h = refl
absent (some value) h = cc

module _ {Model Store : Type 0} (codec : Codec Model) (ldb : Ldb Store) (info : ColInfo Model) where
  -- What an insertion without an error put into the batch.
  pub insert_with_transaction-ok :
      (s : Store) (model : Model) (batch : List Op)
      → insert_with_transaction codec ldb info s model [] ≡ (none, batch)
      → (value : Bytes) × (codec.marshal model ≡ ok value)
        × (check_model_type info.model_type (codec.type_of model) ≡ none)
        × (ldb.has s (primary_key_for_id info (codec.id model)) ≡ ok false)
        × (ops : List Op) × (batch ≡ put (primary_key_for_id info (codec.id model)) value ∷ ops)
        × All (OnIndex codec ldb info) ops
  unfolding insert_with_transaction
  insert_with_transaction-ok s model batch h = elim (Bool-cases (is_empty (codec.id model))) [
    | inl i ↦ let bad = rw (i, insert_with_transaction) at h in cc
    | inr i ↦ elim (Option-cases (check_model_type info.model_type (codec.type_of model))) [
      | inr (e, c) ↦ let bad = rw (i, c, insert_with_transaction) at h in cc
      | inl c ↦ elim (Result-cases (codec.marshal model)) [
        | inr (e, m) ↦ let bad = rw (i, c, m, insert_with_transaction) at h in cc
        | inl (value, m) ↦
            elim (Result-cases (ldb.has s (primary_key_for_id info (codec.id model)))) [
              | inr (e, x) ↦ let bad = rw (i, c, m, x, insert_with_transaction) at h in cc
              | inl (exists, x) ↦ elim (Bool-cases exists) [
                | inl t ↦ let bad = rw (i, c, m, x, t, insert_with_transaction) at h in cc
                | inr f ↦
                    let h' = rw (i, c, m, x, f, insert_with_transaction) at h in
                    let (ops, e, on_index) =
                      save_indexes-ops codec ldb info info.indexes model
                        (put (primary_key_for_id info (codec.id model)) value ∷ []) in
                    (value, m, c, x ∙ ap ok f, ops, sym (ap (λ p. p.1) h') ∙ e, on_index)
              ]
            ]
      ]
    ]
  ]

  -- What a deletion without an error put into the batch.
  pub delete_with_transaction-ok :
      (s : Store) (id : Bytes) (batch : List Op)
      → delete_with_transaction codec ldb info s id [] ≡ (none, batch)
      → (ops : List Op) × (batch ≡ delete (primary_key_for_id info id) ∷ ops)
        × All (OnIndex codec ldb info) ops
  unfolding delete_with_transaction
  delete_with_transaction-ok s id batch h = elim (Bool-cases (is_empty id)) [
    | inl i ↦ let bad = rw (i, delete_with_transaction) at h in cc
    | inr i ↦
        elim (Result-cases (find_existing_model codec ldb info s (primary_key_for_id info id))) [
          | inr (e, f) ↦ let bad = rw (i, f, delete_with_transaction) at h in cc
          | inl (latest, f) ↦
              let h' = rw (i, f, delete_with_transaction) at h in
              let (ops, e, on_index) =
                delete_indexes-ops codec ldb info info.indexes latest
                  (delete (primary_key_for_id info id) ∷ []) in
              (ops, sym (ap (λ p. p.1) h') ∙ e, on_index)
        ]
  ]

  module _ (laws : LdbLaws ldb)
      (reads : (s : Store) (key : Bytes) → ldb.get s key ≡ answer (laws.content s key)) where
    -- `FindByID` is a function of what the primary key holds.
    pub find_by_id-content :
        (s s' : Store) (id : Bytes) (type : GoType)
        → laws.content s (primary_key_for_id info id) ≡ laws.content s' (primary_key_for_id info id)
        → find_by_id codec ldb info s id type ≡ find_by_id codec ldb info s' id type
    unfolding find_by_id
    find_by_id-content s s' id type e =
        let same =
          reads s (primary_key_for_id info id)
          ∙ ap answer e
          ∙ sym (reads s' (primary_key_for_id info id)) in
        elim (Option-cases (check_model_type info.model_type type)) [
          | inl c ↦ rw (c, same, find_by_id) refl
          | inr (x, c) ↦ rw (c, find_by_id) refl
        ]

    find_by_id-absent :
        (s : Store) (id : Bytes) (type : GoType)
        → check_model_type info.model_type type ≡ none
        → laws.content s (primary_key_for_id info id) ≡ none
        → find_by_id codec ldb info s id type ≡ err (not_found id)
    unfolding find_by_id
    find_by_id-absent s id type c e =
        rw (c, reads s (primary_key_for_id info id), e, find_by_id) refl

    find_by_id-present :
        (s : Store) (id value : Bytes) (type : GoType)
        → check_model_type info.model_type type ≡ none
        → laws.content s (primary_key_for_id info id) ≡ some value
        → find_by_id codec ldb info s id type ≡ codec.unmarshal value
    unfolding find_by_id
    find_by_id-present s id value type c e =
        rw (c, reads s (primary_key_for_id info id), e, find_by_id) refl

    pub count-after :
        (codec_laws : CodecLaws codec) (s : Store) (n : ℕ) (old : Option Bytes)
        → n < 2 ^ 64
        → laws.content s (count_key info)
          ≡ after (count_key info) (count_op codec ldb info n ∷ []) old
        → count codec ldb info s ≡ ok n
    unfolding count count_op
    count-after codec_laws s n old bound e = elim (Bool-cases (n == 0)) [
      | inl z ↦
          let e' = rw (z, same_bytes_refl (count_key info)) at e in
          rw (reads s (count_key info), e', count) (ap ok (sym ((==_iff n 0).0 z)))
      | inr z ↦
          let e' = rw (z, same_bytes_refl (count_key info)) at e in
          rw (reads s (count_key info), e', count) (codec_laws.atoi-itoa n bound)
    ]

    -- The store behind a batch that was written: models, and the count.
    module _ (codec_laws : CodecLaws codec) (db : Db Store) (s' : Store) (op : Op) (ops : List Op)
        (diff : ℕ) (id : Bytes) (on_model : op_key op ≡ primary_key_for_id info id)
        (on_index : All (OnIndex codec ldb info) ops)
        (written : Written codec ldb info db (add_int 0 diff) (op ∷ ops) s') where
      written-primary :
          (id' : Bytes)
          → laws.content s' (primary_key_for_id info id')
            ≡ after
                (primary_key_for_id info id')
                (op ∷ [])
                (laws.content db.store (primary_key_for_id info id'))
      written-primary id' =
          laws.write-ok db.store s' _ written.wrote (primary_key_for_id info id')
          ∙ after-model_batch codec ldb info id' op ops _ _ on_index

      written-others :
          (id' : Bytes) (type : GoType)
          → id ≢ id'
          → find_by_id codec ldb info s' id' type ≡ find_by_id codec ldb info db.store id' type
      written-others id' type ne = find_by_id-content s' db.store id' type (
          written-primary id'
          ∙ after-others (primary_key_for_id info id') (op ∷ []) _ (
            (λ e. ne ((primary_key_for_id-injective info info id id' (sym on_model ∙ e)).1)),
            tt,
          ))

      written-count : count codec ldb info s' ≡ ok (add_int written.existing (add_int 0 diff))
      unfolding add_int
      written-count = count-after codec_laws s' _ _ (omega arith) (
          laws.write-ok db.store s' _ written.wrote (count_key info)
          ∙ after-count_batch codec ldb info id op ops _ _ on_model on_index)

    -- If every read of the store succeeds, writes and JSON keep what they are documented to keep,
    -- and an Insert returns no error, then FindByID did not find the ID of the model before and
    -- finds the model after, it finds every other ID as before, the count has grown by one as an
    -- int, and the write lock is free.
    pub insert_model-find_by_id :
        (codec_laws : CodecLaws codec) (model : Model) (db db' : Db Store)
        → insert_model codec ldb info model db ≡ returns (none, db')
        → (find_by_id codec ldb info db.store (codec.id model) (codec.type_of model)
            ≡ err (not_found (codec.id model)))
          × (find_by_id codec ldb info db'.store (codec.id model) (codec.type_of model) ≡ ok model)
          × ((id : Bytes) (type : GoType)
              → codec.id model ≢ id
              → find_by_id codec ldb info db'.store id type
                ≡ find_by_id codec ldb info db.store id type)
          × ((n : ℕ) × (count codec ldb info db.store ≡ ok n)
              × (count codec ldb info db'.store ≡ ok (add_int n 1)))
          × (db'.locked ≡ false)
    unfolding insert_model add_int
    insert_model-find_by_id codec_laws model db db' h =
        let (batch, e, written, _, free) = in_transaction-returns codec ldb info 1 _ db db' h in
        let (value, m, c, x, ops, b, on_index) =
          insert_with_transaction-ok db.store model batch e in
        let written' = subst (λ b. Written codec ldb info db 1 b db'.store) b written in
        let id = codec.id model in
        let op = put (primary_key_for_id info id) value in
        let here = written-primary codec_laws db db'.store op ops 1 id refl on_index written' id in
        (
          find_by_id-absent db.store id _ c (
              absent (laws.content db.store (primary_key_for_id info id))
                (laws.has-ok db.store _ false x)),
          find_by_id-present db'.store id value _ c
                (here ∙ after-put (primary_key_for_id info id) value _)
              ∙ codec_laws.unmarshal-marshal model value m,
          written-others codec_laws db db'.store op ops 1 id refl on_index written',
          (
            written'.existing,
            written'.counted,
            written-count codec_laws db db'.store op ops 1 id refl on_index written',
          ),
          free,
        )

    -- If every read of the store succeeds, writes and JSON keep what they are documented to keep,
    -- and a Delete returns no error, then FindByID with a model of the right type does not find
    -- the ID after, it finds every other ID as before, the count has shrunk by one as an int, and
    -- the write lock is free.
    pub delete_model-find_by_id :
        (codec_laws : CodecLaws codec) (id : Bytes) (type : GoType) (db db' : Db Store)
        → check_model_type info.model_type type ≡ none
        → delete_model codec ldb info id db ≡ returns (none, db')
        → (find_by_id codec ldb info db'.store id type ≡ err (not_found id))
          × ((id' : Bytes) (type : GoType)
              → id ≢ id'
              → find_by_id codec ldb info db'.store id' type
                ≡ find_by_id codec ldb info db.store id' type)
          × ((n : ℕ) × (count codec ldb info db.store ≡ ok n)
              × (count codec ldb info db'.store ≡ ok (add_int n minus_one)))
          × (db'.locked ≡ false)
    unfolding delete_model add_int
    delete_model-find_by_id codec_laws id type db db' c h =
        let (batch, e, written, _, free) =
          in_transaction-returns codec ldb info minus_one _ db db' h in
        let (ops, b, on_index) = delete_with_transaction-ok db.store id batch e in
        let written' = subst (λ b. Written codec ldb info db minus_one b db'.store) b written in
        let op = delete (primary_key_for_id info id) in
        let here =
          written-primary codec_laws db db'.store op ops minus_one id refl on_index written' id in
        (
          find_by_id-absent db'.store id type c
              (here ∙ after-delete (primary_key_for_id info id) _),
          written-others codec_laws db db'.store op ops minus_one id refl on_index written',
          (
            written'.existing,
            written'.counted,
            written-count codec_laws db db'.store op ops minus_one id refl on_index written',
          ),
          free,
        )
