-- ===== src/Db/Query.antt =====
-- db/query.go and the queries of db/snapshot.go: the filters, and the run and the count of a query.
-- The iterator of the store is the list of the keys of the slice in ascending order, and the
-- error that ends it if there is one.
pub mod Unique
use x_mesh.Prelude.{
  ℕ, ◌+◌, zero, suc, Bool, true, false, ◌&&◌, ◌||◌, not, Option, none, some, List, [], ◌∷◌, ◌++◌,
  reverse, length, drop, ltb, leb, ◌==◌, if◌then◌else◌,
}
use x_mesh.Errors.{Error, panic, Result, ok, err, ◌>>=◌}
use x_mesh.Db.Escape.{Bytes, colon, escape}
use x_mesh.Db.Keys.{ColInfo, Index, index_prefix, primary_key_from_index_key}
use x_mesh.Db.Ldb.{Ldb, Codec, same_bytes}
use x_mesh.StringSet.{contains, add_to_set}

-- A slice of the keys: `util.Range` with both ends, or `util.BytesPrefix`.
pub data Slice : Type 0 where
  bytes_prefix : Bytes → Slice
  range : Bytes → Bytes → Slice

pub record Filter (Model : Type 0) : Type 0 where
  pub index : Index Model
  pub slice : Slice

pub record Query (Model : Type 0) : Type 0 where
  pub filter : Filter Model
  pub max : ℕ
  pub offset : ℕ
  pub is_reverse : Bool

-- The keys of a slice in ascending order, and the error at the end.
pub record Iterator : Type 0 where
  pub keys : List Bytes
  pub error : Option Error

module _ {Model : Type 0} where
  unfoldable pub new_query : Filter Model → Query Model
  new_query filter = record { filter = filter; max = 0; offset = 0; is_reverse = false }

  unfoldable pub set_max : ℕ → Query Model → Query Model
  set_max max q = record q { max = max }

  unfoldable pub set_reverse : Query Model → Query Model
  set_reverse q = record q { is_reverse = true }

  unfoldable pub set_offset : ℕ → Query Model → Query Model
  set_offset offset q = record q { offset = offset }

  module _ (info : ColInfo Model) (index : Index Model) where
    unfoldable pub value_filter : Bytes → Filter Model
    value_filter value = record {
      index = index;
      slice = bytes_prefix (index_prefix info index ++ colon ∷ escape value ++ colon ∷ []);
    }

    unfoldable pub range_filter : Bytes → Bytes → Filter Model
    range_filter start limit = record {
      index = index;
      slice =
          range (index_prefix info index ++ colon ∷ escape start)
            (index_prefix info index ++ colon ∷ escape limit);
    }

    unfoldable pub prefix_filter : Bytes → Filter Model
    prefix_filter prefix = record {
      index = index;
      slice = bytes_prefix (index_prefix info index ++ colon ∷ escape prefix);
    }

    unfoldable pub all_filter : Filter Model
    unfolding prefix_filter
    all_filter = prefix_filter []

-- What one key adds: the primary keys that were seen, and the models so far.
pub record Found (Model : Type 0) : Type 0 where
  pub seen : List Bytes
  pub models : List Model

-- `q.max != 0 && n >= q.max`
unfoldable pub reached : ℕ → ℕ → Bool
reached max n = not (max == 0) && leb max n

module _ {Model Store : Type 0} (codec : Codec Model) (ldb : Ldb Store) (info : ColInfo Model)
    (s : Store) where
  -- `getAndAppendModelIfUnique` behind the primary key. The data that `Get` returns with an error is nil,
  -- and nil data are passed over whatever the error is.
  unfoldable pub append_model : Bytes → Found Model → Result (Found Model)
  append_model pk found = if contains found.seen pk then ok found else elim (ldb.get s pk) [
    | err e ↦ ok (record found { seen = found.seen ++ pk ∷ [] })
    | ok value ↦ codec.unmarshal value >>= λ model.
        ok (record { seen = found.seen ++ pk ∷ []; models = found.models ++ model ∷ [] })
  ]

  unfoldable pub get_and_append_model_if_unique :
      Index Model → Bytes → Found Model → Result (Found Model)
  unfolding append_model
  get_and_append_model_if_unique index key found =
      elim (primary_key_from_index_key info index key) [
        | none ↦ err panic
        | some pk ↦ append_model pk found
      ]

  -- the loop of `getModelsWithIteratorForward` and of `getModelsWithIteratorReverse`, from the
  -- first key that the offset does not skip
  unfoldable pub get_models :
      Index Model → ℕ → Option Error → List Bytes → Found Model → Result (List Model)
  unfolding get_and_append_model_if_unique reached
  get_models index max none [] found = ok found.models
  get_models index max (some e) [] found = err e
  get_models index max error (key ∷ keys) found =
      elim (get_and_append_model_if_unique index key found) [
        | err e ↦ err e
        | ok found' ↦ elim (reached max (length found'.models)) [
          | true ↦ ok found'.models
          | false ↦ get_models index max error keys found'
        ]
      ]

  -- `Run`, without the check of the type of the slice that it fills
  unfoldable pub run : Iterator → Query Model → Result (List Model)
  unfolding get_models
  run iterator q =
      let keys = if q.is_reverse then reverse iterator.keys else iterator.keys in
      get_models q.filter.index q.max iterator.error (drop q.offset keys)
        (record { seen = []; models = [] })

  -- the loop of `Count`
  unfoldable pub count_keys : Index Model → ℕ → Option Error → List Bytes → List Bytes → Result ℕ
  unfolding add_to_set reached
  count_keys index max none [] seen = ok (length seen)
  count_keys index max (some e) [] seen = err e
  count_keys index max error (key ∷ keys) seen = elim (primary_key_from_index_key info index key) [
    | none ↦ err panic
    | some pk ↦
        let seen' = add_to_set pk seen in
        elim (reached max (length seen')) [
          | true ↦ ok (length seen')
          | false ↦ count_keys index max error keys seen'
        ]
  ]

  unfoldable pub count_query : Iterator → Query Model → Result ℕ
  unfolding count_keys
  count_query iterator q =
      count_keys q.filter.index q.max iterator.error (drop q.offset iterator.keys) []
