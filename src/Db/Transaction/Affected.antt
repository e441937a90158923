-- ===== src/Db/Transaction/Affected.antt =====
-- `affectedIDs` of a transaction (db/transaction.go): every operation in the batch on a model is on
-- one with an affected ID.
use x_mesh.Prelude.{
  ℕ, ◌≡◌, ◌≢◌, refl, ap, sym, subst, ◌∙◌, inl, inr, Bool, true, false, ◌||◌, Option, none, some,
  List, [], ◌∷◌, All, All-append, Bool-cases, String,
}
use x_mesh.Errors.{Error, conflicting_operations}
use x_mesh.Db.Escape.{Bytes}
use x_mesh.Db.Keys.{ColInfo, primary_key_for_id}
use x_mesh.Db.Keys.Laws.{primary_key_for_id-injective, primary_key≢index_key}
use x_mesh.Db.Ldb.{Op, Ldb, Codec, op_key, same_bytes, same_bytes_refl}
use x_mesh.StringSet.{contains}
use x_mesh.Db.Operations.{add_int}
use x_mesh.Db.Transaction.{
  returns, Transaction, check_state, with_lock, update_internal_count, queue,
}
use x_mesh.Db.Transaction.Commit.{opened}
use x_mesh.Db.Transaction.Effects.{OnIndex}
use x_mesh.Db.Transaction.Appends.{Concerns, Appends}

module _ {Model Store : Type 0} (codec : Codec Model) (ldb : Ldb Store) (info : ColInfo Model) where
  -- The batch touches no model but those with an affected ID.
  abbrev pub IsCovered : List Op → List Bytes → Type 0
  IsCovered batch ids =
      (id : Bytes)
      → contains ids id ≡ false
      → All (λ op. op_key op ≢ primary_key_for_id info id) batch

  or-false : (a b : Bool) → (a || b) ≡ false → (a ≡ false) × (b ≡ false)
  or-false true b h = cc
  or-false false b h = (refl, h)

  OnIndex-other :
      (id : Bytes) (ops : List Op)
      → All (OnIndex codec ldb info) ops
      → All (λ op. op_key op ≢ primary_key_for_id info id) ops
  OnIndex-other id [] h = tt
  OnIndex-other id (op ∷ ops) ((index, id', value, e), hs) = (
    (λ same. primary_key≢index_key info info index id id' value (sym same ∙ e)),
    OnIndex-other id ops hs,
  )

  concerned-other :
      (x id : Bytes) (ops : List Op)
      → same_bytes x id ≡ false
      → All (Concerns codec ldb info x) ops
      → All (λ op. op_key op ≢ primary_key_for_id info id) ops
  concerned-other x id [] ne h = tt
  concerned-other x id (op ∷ ops) ne (inl e, hs) = (
    (λ same.
        let eq = (primary_key_for_id-injective info info x id (sym e ∙ same)).1 in
        let yes = ap (same_bytes x) (sym eq) ∙ same_bytes_refl x in let bad = sym yes ∙ ne in cc),
    concerned-other x id ops ne hs,
  )
  concerned-other x id (op ∷ ops) ne (inr on_index, hs) =
      ((OnIndex-other id (op ∷ []) (on_index, tt)).0, concerned-other x id ops ne hs)

  -- A transaction that takes operations, with a batch that its IDs cover.
  abbrev pub IsOpenCovered : Transaction → Type 0
  IsOpenCovered txn =
      (batch : List Op) × (n : ℕ) × (ids : List Bytes) × (txn ≡ opened batch n ids)
      × IsCovered batch ids

  pub queue-IsOpenCovered :
      (operation : String) (id : Bytes) (diff : ℕ) (write_ops : List Op → Option Error × List Op)
      (batch : List Op) (n : ℕ) (ids : List Bytes)
      → ((batch : List Op) → Appends codec ldb info id batch (write_ops batch))
      → IsCovered batch ids
      → (r : Option Error) × (txn' : Transaction) × (queue codec ldb info operation id diff
            write_ops
            (opened batch n ids)
          ≡ returns (r, txn'))
        × IsOpenCovered txn'
  unfolding queue with_lock check_state update_internal_count
  queue-IsOpenCovered operation id diff write_ops batch n ids appends covered =
      elim (Bool-cases (contains ids id)) [
        | inl known ↦ (
          some (conflicting_operations operation),
          opened batch n ids,
          rw (known, queue) refl,
          (batch, n, ids, refl, covered),
        )
        | inr new_id ↦
            let (ops, e, how) = appends batch in
            elim how [
              | inl (fine, h) ↦ (
                none,
                opened (write_ops batch).1 (add_int n diff) (id ∷ ids),
                rw (new_id, fine, queue) refl,
                (
                  (write_ops batch).1,
                  add_int n diff,
                  id ∷ ids,
                  refl,
                  λ id' new_here.
                      let (other, new_before) =
                        or-false (same_bytes id id') (contains ids id') new_here in
                      subst (All (λ op. op_key op ≢ primary_key_for_id info id')) (sym e) (
                        All-append (λ op. op_key op ≢ primary_key_for_id info id') batch ops
                          (covered id' new_before) (concerned-other id id' ops other h)),
                ),
              )
              | inr (x, failed, h) ↦ (
                some x,
                opened (write_ops batch).1 n ids,
                rw (new_id, failed, queue) refl,
                (
                  (write_ops batch).1,
                  n,
                  ids,
                  refl,
                  λ id' new_here.
                      subst (All (λ op. op_key op ≢ primary_key_for_id info id')) (sym e) (
                        All-append (λ op. op_key op ≢ primary_key_for_id info id') batch ops
                          (covered id' new_here) (OnIndex-other id' ops h)),
                ),
              )
            ]
      ]
