-- ===== src/Db/Global/Counts.antt =====
-- The counts of the collections behind the commit of a global transaction
-- (db/global_transaction.go).
use x_mesh.Prelude.{
  ℕ, ◌≡◌, ◌≢◌, ap, sym, subst, ◌∙◌, none, Option, List, [], ◌∷◌, ◌++◌, append_assoc, All, inl, inr,
  arith,
}
use x_mesh.Errors.{Error, ok}
use x_mesh.Db.Escape.{Bytes}
use x_mesh.Db.Keys.{ColInfo, count_key}
use x_mesh.Db.Keys.Laws.{count_key-injective}
use x_mesh.Db.Ldb.{
  Op, Ldb, Codec, LdbLaws, CodecLaws, op_key, after, after-append, after-others, answer,
}
use x_mesh.Db.Operations.{add_int, count, count_op}
use x_mesh.Db.Transaction.{Call, returns, blocks, Db}
use x_mesh.Db.Transaction.Effects.{count_op-key}
use x_mesh.Db.Transaction.Single.{count-after}
use x_mesh.Db.Global.{InternalCount, GlobalTransaction, global_commit}
use x_mesh.Db.Global.Commit.{CountOps, global_opened, global_commit-cases}

-- No two counts are of one collection.
abbrev pub AreDistinct : {Model : Type 0} → List (InternalCount Model) → Type 0
AreDistinct [] = Unit
AreDistinct (c ∷ counts) = All (λ d. d.info.name ≢ c.info.name) counts × AreDistinct counts

module _ {Model Store : Type 0} (codec : Codec Model) (ldb : Ldb Store) where
  CountOps-others :
      (key : Bytes) (s : Store) (counts : List (InternalCount Model)) (ops : List Op)
      → CountOps codec ldb s counts ops
      → All (λ c. count_key c.info ≢ key) counts
      → All (λ op. op_key op ≢ key) ops
  CountOps-others key s [] ops h others = subst (All (λ op. op_key op ≢ key)) (sym h) tt
  CountOps-others key s (c ∷ counts) ops (n, rest, h, e, more) others =
      subst (All (λ op. op_key op ≢ key)) (sym e) (
        (λ same. others.0 (sym (count_op-key codec ldb c.info (add_int n c.diff)) ∙ same)),
        CountOps-others key s counts rest more others.1,
      )

  names-keys :
      (info : ColInfo Model) (counts : List (InternalCount Model))
      → All (λ d. d.info.name ≢ info.name) counts
      → All (λ d. count_key d.info ≢ count_key info) counts
  names-keys info [] h = tt
  names-keys info (d ∷ counts) h =
      ((λ e. h.0 (count_key-injective d.info info e)), names-keys info counts h.1)

  -- The count of a collection before, and after with the difference added.
  abbrev pub CountMoved : Store → Store → InternalCount Model → Type 0
  CountMoved s s' c =
      (n : ℕ) × (count codec ldb c.info s ≡ ok n)
      × (count codec ldb c.info s' ≡ ok (add_int n c.diff))

  module _ (laws : LdbLaws ldb)
      (reads : (s : Store) (key : Bytes) → ldb.get s key ≡ answer (laws.content s key))
      (codec_laws : CodecLaws codec) where
    counts_after-CountMoved :
        (s s' : Store) (batch : List Op) (counts : List (InternalCount Model)) (ops : List Op)
        → AreDistinct counts
        → CountOps codec ldb s counts ops
        → ((key : Bytes) → laws.content s' key ≡ after key (batch ++ ops) (laws.content s key))
        → All (CountMoved s s') counts
    unfolding add_int
    counts_after-CountMoved s s' batch [] ops distinct h written = tt
    counts_after-CountMoved s s' batch (c ∷ counts) ops (differ, distinct) (n, rest, h, e, more)
          written =
        let key = count_key c.info in
        let op = count_op codec ldb c.info (add_int n c.diff) in
        let old = after key batch (laws.content s key) in
        let here =
          written key
          ∙ ap (λ o. after key (batch ++ o) (laws.content s key)) e
          ∙ after-append key batch (op ∷ rest) (laws.content s key)
          ∙ after-others key rest (after key (op ∷ []) old)
              (CountOps-others key s counts rest more (names-keys c.info counts differ)) in
        (
          (
            n,
            h,
            count-after codec ldb c.info laws reads codec_laws s' (add_int n c.diff) old
                (omega arith) here,
          ),
          counts_after-CountMoved s s' (batch ++ op ∷ []) counts rest distinct more (λ k.
              written k
              ∙ ap (λ o. after k o (laws.content s k))
                  (ap (λ o. batch ++ o) e ∙ sym (append_assoc batch (op ∷ []) rest))),
        )

    -- If every read of the store succeeds, writes and decimals keep what they are documented to
    -- keep, no two counts of an open global transaction are of one collection, and its commit
    -- returns no error, then the count of each of these collections has grown by its difference,
    -- as an int.
    pub global_commit-CountMoved :
        (db db' : Db Store) (batch : List Op) (counts : List (InternalCount Model))
        (txn' : GlobalTransaction Model)
        → AreDistinct counts
        → global_commit codec ldb db (global_opened batch counts) ≡ returns ((none, db'), txn')
        → All (CountMoved db.store db'.store) counts
    global_commit-CountMoved db db' batch counts txn' distinct h =
        elim (global_commit-cases codec ldb db batch counts) [
          | inl (e, _, b) ↦ let bad = sym b ∙ h in cc
          | inr (ops, store, t, counted, w, _, _, c) ↦
              let same = sym c ∙ h in
              let e = ap (store_of store) same in
              subst (λ s. All (CountMoved db.store s) counts) e
                (counts_after-CountMoved db.store store batch counts ops distinct counted
                  (laws.write-ok db.store store (batch ++ ops) w))
        ]
      where
        store_of : Store → Call ((Option Error × Db Store) × GlobalTransaction Model) → Store
        store_of s (returns (r, t)) = r.1.store
        store_of s blocks = s
