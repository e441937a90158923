-- ===== src/Db/Query/Unique.antt =====
-- Queries (db/query.go): `Count` and `Run` agree, also where an index holds a model several times.
use x_mesh.Prelude.{
  ℕ, ◌+◌, zero, suc, ◌≡◌, ◌≤◌, ◌<◌, ◌⊎◌, refl, ap, sym, ◌∙◌, inl, inr, false, none, some, List, [],
  ◌∷◌, ◌++◌, length, length-append, drop, ◌==◌, ==_iff, Bool-cases, All, arith,
}
use x_mesh.Errors.{ok}
use x_mesh.Db.Escape.{Bytes}
use x_mesh.Db.Keys.{ColInfo, Index, primary_key_from_index_key}
use x_mesh.Db.Ldb.{Ldb, Codec}
use x_mesh.StringSet.{contains, add_to_set}
use x_mesh.Db.Query.{
  Query, Iterator, Found, reached, append_model, get_and_append_model_if_unique, get_models, run,
  count_keys, count_query,
}

reached-bound : (max n : ℕ) → reached max n ≡ false → (max ≡ 0) ⊎ (n < max)
unfolding reached
reached-bound max n h = elim (Bool-cases (max == 0)) [
  | inl e ↦ inl ((==_iff max 0).0 e)
  | inr e ↦ inr (let h' = rw e at h in ground arith)
]

All-drop {ℓ κ} : {A : Type ℓ} (P : A → Type κ) (n : ℕ) (xs : List A) → All P xs → All P (drop n xs)
All-drop P zero xs h = h
All-drop P (suc n) [] h = tt
All-drop P (suc n) (x ∷ xs) h = All-drop P n xs h.1

module _ {Model Store : Type 0} (codec : Codec Model) (ldb : Ldb Store) (info : ColInfo Model)
    (s : Store) where
  -- The key of an index entry whose model is stored and can be decoded.
  abbrev pub Leads : Index Model → Bytes → Type 0
  Leads index key =
      (pk : Bytes) × (value : Bytes) × (model : Model) × (primary_key_from_index_key info index key
        ≡ some pk)
      × (ldb.get s pk ≡ ok value)
      × (codec.unmarshal value ≡ ok model)

  -- What one key does to the models found and to the set of primary keys.
  step :
      (index : Index Model) (key : Bytes) (found : Found Model) (leads : Leads index key)
      → length found.models ≡ length found.seen
      → (found' : Found Model) × (get_and_append_model_if_unique codec ldb info s index key found
          ≡ ok found')
        × (add_to_set leads.0 found.seen ≡ found'.seen)
        × (length found'.models ≡ length found'.seen)
        × (length found'.models ≤ length found.models + 1)
  unfolding get_and_append_model_if_unique append_model add_to_set
  step index key found (pk, value, model, k, g, u) same =
      elim (Bool-cases (contains found.seen pk)) [
        | inl c ↦ (
          found,
          rw (k, c, get_and_append_model_if_unique, append_model) refl,
          rw c refl,
          same,
          omega arith,
        )
        | inr c ↦ (
          record { seen = found.seen ++ pk ∷ []; models = found.models ++ model ∷ [] },
          rw (k, c, g, u, get_and_append_model_if_unique, append_model) refl,
          rw c refl,
          omega (
            arith,
            same,
            length-append found.seen (pk ∷ []),
            length-append found.models (model ∷ []),
          ),
          omega (arith, length-append found.models (model ∷ [])),
        )
      ]

  loops-agree :
      (index : Index Model) (max : ℕ) (keys : List Bytes) (found : Found Model)
      → All (Leads index) keys
      → length found.models ≡ length found.seen
      → (max ≡ 0) ⊎ (length found.models < max)
      → (models : List Model) × (get_models codec ldb info s index max none keys found ≡ ok models)
        × (count_keys codec ldb info s index max none keys found.seen ≡ ok (length models))
        × ((max ≡ 0) ⊎ (length models ≤ max))
  unfolding get_models count_keys
  loops-agree index max [] found h same bound = (found.models, refl, ap ok (sym same), ground arith)
  loops-agree index max (key ∷ keys) found (leads, h) same bound =
      let (found', step_run, step_set, same', grew) = step index key found leads same in
      let sizes = ap (reached max) (sym same') in
      elim (Bool-cases (reached max (length found'.models))) [
        | inl r ↦ (
          found'.models,
          rw (step_run, r, get_models) refl,
          rw (leads.3, step_set, sizes, r, count_keys)
              (ap (λ x. ok (length x)) step_set ∙ ap ok (sym same')),
          ground arith,
        )
        | inr r ↦
            let (models, e, c, b) =
              loops-agree index max keys found' h same'
                (reached-bound max (length found'.models) r) in
            (
              models,
              rw (step_run, r, get_models) e,
              rw (leads.3, step_set, sizes, r, count_keys)
                  (ap (count_keys codec ldb info s index max none keys) step_set ∙ c),
              b,
            )
      ]

  -- If the iterator ends without an error, and each of its keys leads to a model that is stored
  -- and can be decoded, then a query that is not reversed returns models, as many as Count says,
  -- and with a maximum at most so many.
  pub count_query-run :
      (iterator : Iterator) (q : Query Model)
      → iterator.error ≡ none
      → q.is_reverse ≡ false
      → All (Leads q.filter.index) iterator.keys
      → (models : List Model) × (run codec ldb info s iterator q ≡ ok models)
        × (count_query codec ldb info s iterator q ≡ ok (length models))
        × ((q.max ≡ 0) ⊎ (length models ≤ q.max))
  unfolding run count_query
  count_query-run iterator q no_error forward h =
      let (models, r, c, b) =
        loops-agree q.filter.index q.max (drop q.offset iterator.keys)
          (record { seen = []; models = [] }) (All-drop _ q.offset iterator.keys h) refl
          (ground arith) in
      (models, simp (forward, no_error) r, simp no_error c, b)
