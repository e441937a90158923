-- ===== src/Db/Transaction/Effects.antt =====
-- What `Insert`, `Update` and `Delete` of a collection (db/collection.go) leave in the store: the
-- model under its primary key, every other model as it was, and the new count.
use x_mesh.Prelude.{
  ℕ, ◌≡◌, ◌≢◌, refl, ap, sym, ◌∙◌, inl, inr, Option, List, [], ◌∷◌, ◌++◌, map, append_assoc,
  append-nil, Bool-cases, All, All-append, ◌==◌,
}
use x_mesh.Db.Escape.{Bytes}
use x_mesh.Db.Keys.{ColInfo, Index, primary_key_for_id, count_key, index_key, keys_for_model}
use x_mesh.Db.Keys.Laws.{primary_key≢count_key, primary_key≢index_key, count_key≢index_key}
use x_mesh.Db.Ldb.{Op, put, delete, Ldb, Codec, op_key, after, after-append, after-others}
use x_mesh.Db.Operations.{count_op, save_indexes, delete_indexes}

module _ {Model Store : Type 0} (codec : Codec Model) (ldb : Ldb Store) (info : ColInfo Model) where
  -- an operation on an index entry
  abbrev pub OnIndex : Op → Type 0
  OnIndex op =
      (index : Index Model) × (id : Bytes) × (value : Bytes) × (op_key op
        ≡ index_key info index id value)

  key_ops-OnIndex :
      (f : Bytes → Op) (index : Index Model) (id : Bytes) (values : List Bytes)
      → ((key : Bytes) → op_key (f key) ≡ key)
      → All OnIndex (map f (map (index_key info index id) values))
  key_ops-OnIndex f index id [] h = tt
  key_ops-OnIndex f index id (v ∷ vs) h =
      ((index, id, v, h (index_key info index id v)), key_ops-OnIndex f index id vs h)

  -- The index operations stand behind what was in the batch.
  pub save_indexes-ops :
      (indexes : List (Index Model)) (model : Model) (batch : List Op)
      → (ops : List Op) × (save_indexes codec ldb info indexes model batch ≡ batch ++ ops)
        × All OnIndex ops
  unfolding save_indexes keys_for_model
  save_indexes-ops [] model batch = ([], sym (append-nil batch), tt)
  save_indexes-ops (index ∷ indexes) model batch =
      let here = map (λ key. put key []) (keys_for_model codec.id info index model) in
      let (ops, e, h) = save_indexes-ops indexes model (batch ++ here) in
      (
        here ++ ops,
        e ∙ append_assoc batch here ops,
        All-append OnIndex here ops
            (key_ops-OnIndex (λ key. put key []) index (codec.id model) (index.getter model)
              (λ key. refl))
            h,
      )

  pub delete_indexes-ops :
      (indexes : List (Index Model)) (model : Model) (batch : List Op)
      → (ops : List Op) × (delete_indexes codec ldb info indexes model batch ≡ batch ++ ops)
        × All OnIndex ops
  unfolding delete_indexes keys_for_model
  delete_indexes-ops [] model batch = ([], sym (append-nil batch), tt)
  delete_indexes-ops (index ∷ indexes) model batch =
      let here = map delete (keys_for_model codec.id info index model) in
      let (ops, e, h) = delete_indexes-ops indexes model (batch ++ here) in
      (
        here ++ ops,
        e ∙ append_assoc batch here ops,
        All-append OnIndex here ops
            (key_ops-OnIndex delete index (codec.id model) (index.getter model) (λ key. refl)) h,
      )

  OnIndex-other :
      (key : Bytes)
      → ((index : Index Model) (id value : Bytes) → key ≢ index_key info index id value)
      → (ops : List Op) → All OnIndex ops
      → All (λ op. op_key op ≢ key) ops
  OnIndex-other key h [] hs = tt
  OnIndex-other key h (op ∷ ops) ((index, id, value, e), hs) =
      ((λ same. h index id value (sym same ∙ e)), OnIndex-other key h ops hs)

  -- Operations on index entries touch no model and no count.
  pub index_ops-primary :
      (id : Bytes) (ops : List Op) (old : Option Bytes)
      → All OnIndex ops
      → after (primary_key_for_id info id) ops old ≡ old
  index_ops-primary id ops old h = after-others (primary_key_for_id info id) ops old (
      OnIndex-other (primary_key_for_id info id)
        (λ index id' value. primary_key≢index_key info info index id id' value) ops h)

  pub index_ops-count :
      (ops : List Op) (old : Option Bytes) → All OnIndex ops → after (count_key info) ops old ≡ old
  index_ops-count ops old h = after-others (count_key info) ops old (
      OnIndex-other (count_key info)
        (λ index id value. count_key≢index_key info info index id value) ops h)

  pub count_op-key : (n : ℕ) → op_key (count_op codec ldb info n) ≡ count_key info
  unfolding count_op
  count_op-key n = elim (Bool-cases (n == 0)) [ inl e ↦ rw e refl | inr e ↦ rw e refl ]

  -- A batch that begins with one operation on a model, goes on with index entries and ends with
  -- the count, seen at the primary key of an ID.
  pub after-model_batch :
      (id : Bytes) (op : Op) (ops : List Op) (n : ℕ) (old : Option Bytes)
      → All OnIndex ops
      → after (primary_key_for_id info id) ((op ∷ ops) ++ count_op codec ldb info n ∷ []) old
        ≡ after (primary_key_for_id info id) (op ∷ []) old
  after-model_batch id op ops n old h =
      let key = primary_key_for_id info id in
      after-append key (op ∷ ops) (count_op codec ldb info n ∷ []) old
      ∙ after-others key (count_op codec ldb info n ∷ []) (after key (op ∷ ops) old)
          ((λ e. primary_key≢count_key info info id (sym e ∙ count_op-key n)), tt)
      ∙ index_ops-primary id ops (after key (op ∷ []) old) h

  -- The same batch, seen at the count.
  pub after-count_batch :
      (id : Bytes) (op : Op) (ops : List Op) (n : ℕ) (old : Option Bytes)
      → op_key op ≡ primary_key_for_id info id
      → All OnIndex ops
      → after (count_key info) ((op ∷ ops) ++ count_op codec ldb info n ∷ []) old
        ≡ after (count_key info) (count_op codec ldb info n ∷ []) old
  after-count_batch id op ops n old on_model h =
      let key = count_key info in
      after-append key (op ∷ ops) (count_op codec ldb info n ∷ []) old
      ∙ ap (after key (count_op codec ldb info n ∷ [])) (
          index_ops-count ops (after key (op ∷ []) old) h
          ∙ after-others key (op ∷ []) old
              ((λ e. primary_key≢count_key info info id (sym on_model ∙ e)), tt))
