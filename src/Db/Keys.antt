-- ===== src/Db/Keys.antt =====
-- db/col_info.go and db/index.go: the keys of models, of counts and of index entries. A key is the
-- bytes that `fmt.Sprintf` makes, with the parts joined by ':'.
pub mod Laws
use x_mesh.Prelude.{
  ℕ, Bool, true, false, ◌&&◌, Option, none, some, List, [], ◌∷◌, ◌++◌, map, ◌==◌, if◌then◌else◌,
  length, drop, get_elem?,
}
use x_mesh.Db.Escape.{Bytes, colon, escape}

-- A Go type, as the reflect package tells types apart: a named type, or a pointer to a type.
pub data GoType : Type 0 where
  named : ℕ → GoType
  ptr : GoType → GoType

abbrev pub same_type : GoType → GoType → Bool
same_type (named n) (named k) = n == k
same_type (named n) (ptr t) = false
same_type (ptr t) (named n) = false
same_type (ptr t) (ptr u) = same_type t u

-- A model is a Go value with an `ID` method; what it is beyond that is left open.
pub record Index (Model : Type 0) : Type 0 where
  pub name : Bytes
  pub getter : Model → List Bytes

-- `colInfo`, without the pointer to its database and without its locks
pub record ColInfo (Model : Type 0) : Type 0 where
  pub name : Bytes
  pub model_type : GoType
  pub indexes : List (Index Model)

-- the byte strings "model:", "count:" and "index:"
abbrev model_tag : Bytes
model_tag = 109 ∷ 111 ∷ 100 ∷ 101 ∷ 108 ∷ 58 ∷ []

abbrev count_tag : Bytes
count_tag = 99 ∷ 111 ∷ 117 ∷ 110 ∷ 116 ∷ 58 ∷ []

abbrev index_tag : Bytes
index_tag = 105 ∷ 110 ∷ 100 ∷ 101 ∷ 120 ∷ 58 ∷ []

module _ {Model : Type 0} where
  unfoldable pub prefix : ColInfo Model → Bytes
  prefix info = model_tag ++ escape info.name

  unfoldable pub count_key : ColInfo Model → Bytes
  count_key info = count_tag ++ escape info.name

  unfoldable pub primary_key_for_id : ColInfo Model → Bytes → Bytes
  unfolding prefix
  primary_key_for_id info id = prefix info ++ colon ∷ escape id

  unfoldable pub primary_key_for_id_without_escape : ColInfo Model → Bytes → Bytes
  unfolding prefix
  primary_key_for_id_without_escape info id = prefix info ++ colon ∷ id

  unfoldable pub primary_key_for_model : (Model → Bytes) → ColInfo Model → Model → Bytes
  unfolding primary_key_for_id
  primary_key_for_model model_id info model = primary_key_for_id info (model_id model)

  -- Unlike in `prefix`, the names are not escaped.
  unfoldable pub index_prefix : ColInfo Model → Index Model → Bytes
  index_prefix info index = index_tag ++ info.name ++ colon ∷ index.name

  -- one round of the loop of `keysForModel`
  unfoldable pub index_key : ColInfo Model → Index Model → Bytes → Bytes → Bytes
  index_key info index id value =
      index_prefix info index ++ colon ∷ escape value ++ colon ∷ escape id

  unfoldable pub keys_for_model : (Model → Bytes) → ColInfo Model → Index Model → Model → List Bytes
  unfolding index_key
  keys_for_model model_id info index model =
      map (index_key info index (model_id model)) (index.getter model)

-- `strings.TrimPrefix`: without the prefix, or all of it where it does not begin so.
abbrev strip? : Bytes → Bytes → Option Bytes
strip? [] bs = some bs
strip? (p ∷ ps) [] = none
strip? (p ∷ ps) (b ∷ bs) = if p == b then strip? ps bs else none

abbrev pub trim_prefix : Bytes → Bytes → Bytes
trim_prefix bs ps = elim (strip? ps bs) [ some rest ↦ rest | none ↦ bs ]

-- `strings.Split` at colons
abbrev add_to_first : ℕ → List Bytes → List Bytes
add_to_first b [] = (b ∷ []) ∷ []
add_to_first b (part ∷ parts) = (b ∷ part) ∷ parts

abbrev pub split : Bytes → List Bytes
split [] = [] ∷ []
split (b ∷ bs) = let rest = split bs in if b == colon then [] ∷ rest else add_to_first b rest

-- `split[2]`, where `none` is the panic of an index out of range
module _ {Model : Type 0} where
  unfoldable pub primary_key_from_index_key : ColInfo Model → Index Model → Bytes → Option Bytes
  unfolding primary_key_for_id_without_escape
  primary_key_from_index_key info index key =
      elim (get_elem? (split (trim_prefix key (index_prefix info index))) 2) [
        | some id ↦ some (primary_key_for_id_without_escape info id)
        | none ↦ none
      ]
