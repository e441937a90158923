-- ===== src/Db/Keys/Laws.antt =====
-- The keys of models, of counts and of index entries (db/col_info.go, db/index.go): the primary
-- key of a model comes back from its index keys, and different things have different keys.
use x_mesh.Prelude.{
  ℕ, ◌≡◌, ◌≢◌, refl, ap, subst, false, Option, none, some, List, [], ◌∷◌, ◌++◌, map, append_assoc,
  ◌==◌, ==_refl, All, arith, get_elem?,
}
use x_mesh.Db.Escape.{Bytes, colon, escape, escape-no_colon, escape-injective}
use x_mesh.Db.Keys.{
  ColInfo, Index, prefix, count_key, primary_key_for_id, primary_key_for_id_without_escape,
  primary_key_for_model, index_prefix, index_key, keys_for_model, strip?, trim_prefix, split,
  primary_key_from_index_key, model_tag, count_tag,
}

strip?-append : (ps bs : Bytes) → strip? ps (ps ++ bs) ≡ some bs
strip?-append [] bs = refl
strip?-append (p ∷ ps) bs = rw (==_refl p) (strip?-append ps bs)

head_eq : {b c : ℕ} {bs cs : Bytes} → b ∷ bs ≡ c ∷ cs → b ≡ c
head_eq e = cc

not_colon : (b : ℕ) → b ≢ colon → (b == colon) ≡ false
not_colon b h = ground arith

split-colon_free : (bs : Bytes) → All (λ b. b ≢ colon) bs → split bs ≡ bs ∷ []
split-colon_free [] h = refl
split-colon_free (b ∷ bs) h = rw (not_colon b h.0, split-colon_free bs h.1) refl

split-append :
    (bs rest : Bytes) → All (λ b. b ≢ colon) bs → split (bs ++ colon ∷ rest) ≡ bs ∷ split rest
split-append [] rest h = refl
split-append (b ∷ bs) rest h = rw (not_colon b h.0, split-append bs rest h.1) refl

trim_prefix-append : (ps bs : Bytes) → trim_prefix (ps ++ bs) ps ≡ bs
trim_prefix-append ps bs =
    ap (λ o. elim o as (λ x. Bytes) [ some rest ↦ rest | none ↦ ps ++ bs ]) (strip?-append ps bs)

split_trimmed :
    (ps bs cs : Bytes)
    → All (λ b. b ≢ colon) bs
    → All (λ b. b ≢ colon) cs
    → split (trim_prefix (ps ++ colon ∷ bs ++ colon ∷ cs) ps) ≡ [] ∷ bs ∷ cs ∷ []
split_trimmed ps bs cs hb hc =
    rw
      (
        append_assoc ps (colon ∷ bs) (colon ∷ cs),
        trim_prefix-append ps (colon ∷ bs ++ colon ∷ cs),
        split-append bs cs hb,
        split-colon_free cs hc,
      )
      refl

module _ {Model : Type 0} (info : ColInfo Model) where
  -- From the index key of a value and an ID the primary key of the ID comes back, whatever bytes
  -- the names, the value and the ID hold.
  pub primary_key_from_index_key-index_key :
      (index : Index Model) (id value : Bytes)
      → primary_key_from_index_key info index (index_key info index id value)
        ≡ some (primary_key_for_id info id)
  unfolding primary_key_from_index_key index_key primary_key_for_id
      primary_key_for_id_without_escape
  primary_key_from_index_key-index_key index id value =
      ap
        (λ parts. elim (get_elem? {A = Bytes} parts 2) as (λ o. Option Bytes) [
          | some part ↦ some (primary_key_for_id_without_escape info part)
          | none ↦ none
        ])
        (split_trimmed (index_prefix info index) (escape value) (escape id) (escape-no_colon value)
          (escape-no_colon id))

  -- In the keys that `keysForModel` makes for a model, each leads back to the primary key of
  -- the model.
  pub keys_for_model-primary :
      (model_id : Model → Bytes) (index : Index Model) (model : Model)
      → All
          (λ key.
            primary_key_from_index_key info index key
            ≡ some (primary_key_for_model model_id info model))
          (keys_for_model model_id info index model)
  unfolding keys_for_model primary_key_for_model
  keys_for_model-primary model_id index model = go (index.getter model)
    where
      go :
          (values : List Bytes)
          → All
              (λ key.
                primary_key_from_index_key info index key
                ≡ some (primary_key_for_id info (model_id model)))
              (map (index_key info index (model_id model)) values)
      go [] = tt
      go (v ∷ vs) = (primary_key_from_index_key-index_key index (model_id model) v, go vs)

-- Two joined pairs whose second parts hold no colon are equal only part by part.
first_part-injective :
    (bs cs xs ys : Bytes)
    → All (λ b. b ≢ colon) bs
    → All (λ b. b ≢ colon) cs
    → bs ++ colon ∷ xs ≡ cs ++ colon ∷ ys
    → (bs ≡ cs) × (xs ≡ ys)
first_part-injective [] [] xs ys hb hc e = (refl, cc)
first_part-injective [] (c ∷ cs) xs ys hb hc e = absurd (hc.0 cc)
first_part-injective (b ∷ bs) [] xs ys hb hc e = absurd (hb.0 cc)
first_part-injective (b ∷ bs) (c ∷ cs) xs ys hb hc e =
    let (l, r) = first_part-injective bs cs xs ys hb.1 hc.1 cc in (cc, r)

append-injective : (ps xs ys : Bytes) → ps ++ xs ≡ ps ++ ys → xs ≡ ys
append-injective [] xs ys e = e
append-injective (p ∷ ps) xs ys e = append-injective ps xs ys cc

no_colon-append-absurd : (xs bs : Bytes) → All (λ b. b ≢ colon) (xs ++ colon ∷ bs) → ⊥
no_colon-append-absurd [] bs h = h.0 refl
no_colon-append-absurd (x ∷ xs) bs h = no_colon-append-absurd xs bs h.1

last_part-injective :
    (xs ys bs cs : Bytes)
    → All (λ b. b ≢ colon) bs
    → All (λ b. b ≢ colon) cs
    → xs ++ colon ∷ bs ≡ ys ++ colon ∷ cs
    → (xs ≡ ys) × (bs ≡ cs)
last_part-injective [] [] bs cs hb hc e = (refl, cc)
last_part-injective [] (y ∷ ys) bs cs hb hc e =
    let t : bs ≡ ys ++ colon ∷ cs = cc in
    absurd (no_colon-append-absurd ys cs (subst (λ x. All (λ b. b ≢ colon) x) t hb))
last_part-injective (x ∷ xs) [] bs cs hb hc e =
    let t : cs ≡ xs ++ colon ∷ bs = cc in
    absurd (no_colon-append-absurd xs bs (subst (λ x. All (λ b. b ≢ colon) x) t hc))
last_part-injective (x ∷ xs) (y ∷ ys) bs cs hb hc e =
    let (l, r) = last_part-injective xs ys bs cs hb hc cc in (cc, r)

module _ {Model : Type 0} where
  -- A primary key belongs to one collection name and one ID.
  pub primary_key_for_id-injective :
      (info other : ColInfo Model) (id id' : Bytes)
      → primary_key_for_id info id ≡ primary_key_for_id other id'
      → (info.name ≡ other.name) × (id ≡ id')
  unfolding primary_key_for_id prefix
  primary_key_for_id-injective info other id id' e =
      let (n, i) =
        first_part-injective (escape info.name) (escape other.name) (escape id) (escape id')
          (escape-no_colon info.name) (escape-no_colon other.name)
          (append-injective model_tag _ _ e) in
      (escape-injective _ _ n, escape-injective _ _ i)

  -- Two index keys are equal only if their IDs are equal, their values are equal and the prefixes
  -- of their indexes are equal.
  index_key-injective :
      (info other : ColInfo Model) (index index' : Index Model) (id id' value value' : Bytes)
      → index_key info index id value ≡ index_key other index' id' value'
      → (id ≡ id') × (value ≡ value') × (index_prefix info index ≡ index_prefix other index')
  unfolding index_key
  index_key-injective info other index index' id id' value value' e =
      let p = index_prefix info index in
      let q = index_prefix other index' in
      let (l, i) =
        last_part-injective (p ++ colon ∷ escape value) (q ++ colon ∷ escape value') (escape id)
          (escape id') (escape-no_colon id) (escape-no_colon id') e in
      let (pq, v) =
        last_part-injective p q (escape value) (escape value') (escape-no_colon value)
          (escape-no_colon value') l in
      (escape-injective _ _ i, escape-injective _ _ v, pq)

  -- Keys of models, of counts and of index entries are never the same.
  pub primary_key≢count_key :
      (info other : ColInfo Model) (id : Bytes) → primary_key_for_id info id ≢ count_key other
  unfolding primary_key_for_id prefix count_key
  primary_key≢count_key info other id e = absurd (omega (arith, head_eq e))

  pub primary_key≢index_key :
      (info other : ColInfo Model) (index : Index Model) (id id' value : Bytes)
      → primary_key_for_id info id ≢ index_key other index id' value
  unfolding primary_key_for_id prefix index_key index_prefix
  primary_key≢index_key info other index id id' value e = absurd (omega (arith, head_eq e))

  pub count_key≢index_key :
      (info other : ColInfo Model) (index : Index Model) (id value : Bytes)
      → count_key info ≢ index_key other index id value
  unfolding count_key index_key index_prefix
  count_key≢index_key info other index id value e = absurd (omega (arith, head_eq e))

  -- A count key belongs to one collection name.
  pub count_key-injective :
      (info other : ColInfo Model) → count_key info ≡ count_key other → info.name ≡ other.name
  unfolding count_key
  count_key-injective info other e =
      escape-injective info.name other.name (append-injective count_tag _ _ e)
