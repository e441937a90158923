-- ===== src/Db/Transaction/Total.antt =====
-- When the single operations of a collection (db/collection.go) return, and what they leave when
-- they fail.
use x_mesh.Prelude.{
  ℕ, ◌≡◌, refl, ap, sym, ◌∙◌, inl, inr, true, false, Option, none, some, List, [], ◌∷◌,
}
use x_mesh.Errors.{Error, ok, already_exists}
use x_mesh.Db.Escape.{Bytes}
use x_mesh.Db.Keys.{ColInfo, primary_key_for_id}
use x_mesh.Db.Ldb.{Op, put, Ldb, Codec}
use x_mesh.Db.Operations.{
  is_empty, check_model_type, add_int, count, insert_with_transaction, save_indexes,
}
use x_mesh.Db.Transaction.{
  Call, returns, Db, open_transaction, commit_or_discard, in_transaction, discard, discard_with,
  with_lock, update_internal_count, insert_model, outcome,
}
use x_mesh.Db.Transaction.Commit.{opened, commit-cases}

module _ {Model Store : Type 0} (codec : Codec Model) (ldb : Ldb Store) (info : ColInfo Model) where
  -- `in_transaction` on a store whose write lock is free, behind the operation.
  after_ops : ℕ → Store → Option Error × List Op → Call (Option Error × Db Store)
  after_ops diff s r = elim (r.0) [
    | some e ↦
        outcome codec ldb info
          (discard_with codec ldb info e (record { store = s; locked = true }) (opened r.1 0 []))
    | none ↦
        commit_or_discard codec ldb info (record { store = s; locked = true })
          (update_internal_count diff (opened r.1 0 []))
  ]

  in_transaction-after_ops :
      (diff : ℕ) (write_ops : Store → List Op → Option Error × List Op) (s : Store)
      → in_transaction codec ldb info diff write_ops (record { store = s; locked = false })
        ≡ after_ops diff s (write_ops s [])
  unfolding in_transaction open_transaction after_ops
  in_transaction-after_ops diff write_ops s = refl

  failed_ops :
      (diff : ℕ) (s : Store) (e : Error) (batch : List Op)
      → after_ops diff s (some e, batch) ≡ returns (some e, record { store = s; locked = false })
  unfolding after_ops discard_with discard with_lock
  failed_ops diff s e batch = refl

  written_ops :
      (diff : ℕ) (s : Store) (batch : List Op) (n : ℕ)
      → count codec ldb info s ≡ ok n
      → ((ops : List Op) → (s' : Store) × (ldb.write s ops ≡ ok s'))
      → (db' : Db Store) × (after_ops diff s (none, batch) ≡ returns (none, db'))
  unfolding after_ops commit_or_discard update_internal_count
  written_ops diff s batch n counted takes =
      elim (commit-cases codec ldb info (record { store = s; locked = true }) batch (add_int 0 diff)
        []) [
          | inl (e, inl unread, _) ↦ let bad = sym unread ∙ counted in cc
          | inl (e, inr (k, _, refused), _) ↦
              let (s', taken) = takes _ in let bad = sym refused ∙ taken in cc
          | inr (store, txn', _, _, _, c) ↦
              (record { store = store; locked = false }, rw (c, commit_or_discard) refl)
        ]

  module _ (model : Model) (s : Store) (value : Bytes) (named : is_empty (codec.id model) ≡ false)
      (typed : check_model_type info.model_type (codec.type_of model) ≡ none)
      (marshalled : codec.marshal model ≡ ok value) where
    ops-stored :
        ldb.has s (primary_key_for_id info (codec.id model)) ≡ ok true
        → insert_with_transaction codec ldb info s model []
          ≡ (some (already_exists (codec.id model)), [])
    unfolding insert_with_transaction
    ops-stored h = rw (named, typed, marshalled, h, insert_with_transaction) refl

    ops-free :
        ldb.has s (primary_key_for_id info (codec.id model)) ≡ ok false
        → (batch : List Op) × (insert_with_transaction codec ldb info s model [] ≡ (none, batch))
    unfolding insert_with_transaction
    ops-free h = (
      save_indexes codec ldb info info.indexes model
          (put (primary_key_for_id info (codec.id model)) value ∷ []),
      rw (named, typed, marshalled, h, insert_with_transaction) refl,
    )

    -- If the write lock is free, the ID is not empty but stored, the type is right and the model
    -- can be encoded, then Insert returns that the model already exists, and leaves the store as
    -- it was and the write lock free.
    pub insert_model-already_exists :
        ldb.has s (primary_key_for_id info (codec.id model)) ≡ ok true
        → insert_model codec ldb info model (record { store = s; locked = false })
          ≡ returns (some (already_exists (codec.id model)), record { store = s; locked = false })
    unfolding insert_model
    insert_model-already_exists stored =
        in_transaction-after_ops 1 (λ s. insert_with_transaction codec ldb info s model) s
        ∙ ap (after_ops 1 s) (ops-stored stored)
        ∙ failed_ops 1 s (already_exists (codec.id model)) []

    -- If the write lock is free, the ID is not empty and not stored, the type is right, the model
    -- can be encoded, the count can be read and the store takes every batch, then Insert returns
    -- no error.
    pub insert_model-returns :
        (n : ℕ)
        → ldb.has s (primary_key_for_id info (codec.id model)) ≡ ok false
        → count codec ldb info s ≡ ok n
        → ((ops : List Op) → (s' : Store) × (ldb.write s ops ≡ ok s'))
        → (db' : Db Store) × (insert_model codec ldb info model
              (record { store = s; locked = false })
            ≡ returns (none, db'))
    unfolding insert_model
    insert_model-returns n free counted takes =
        let (batch, e) = ops-free free in
        let (db', done) = written_ops 1 s batch n counted takes in
        (
          db',
          in_transaction-after_ops 1 (λ s. insert_with_transaction codec ldb info s model) s
              ∙ ap (after_ops 1 s) e
              ∙ done,
        )
