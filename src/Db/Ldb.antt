-- ===== src/Db/Ldb.antt =====
-- What the package db takes from elsewhere: the key-value store goleveldb, and JSON and decimal
-- numbers of Go's library. They are parameters, with what the code relies on as laws.
use x_mesh.Prelude.{
  ℕ, ◌≡◌, ◌≢◌, refl, ◌<◌, ◌^◌, Bool, true, false, ◌&&◌, Option, none, some, List, [], ◌∷◌, ◌++◌,
  ◌==◌, ==_iff, if◌then◌else◌, All, Bool-cases, inl, inr, ==_refl,
}
use x_mesh.Errors.{key_not_found, Result, ok, err}
use x_mesh.Db.Escape.{Bytes}
use x_mesh.Db.Keys.{GoType}

-- an operation of a `leveldb.Batch`
pub data Op : Type 0 where
  put : Bytes → Bytes → Op
  delete : Bytes → Op

-- The store in a state of type `Store`. A key that is not there is the error `key_not_found`.
pub record Ldb (Store : Type 0) : Type 0 where
  pub get : Store → Bytes → Result Bytes
  pub has : Store → Bytes → Result Bool
  pub write : Store → List Op → Result Store

-- A `Model` has an ID and a Go type; `json.Marshal` and `json.Unmarshal` at the collection's type;
-- `strconv.Itoa` and `strconv.Atoi`, on an `int` as its 64 bits.
pub record Codec (Model : Type 0) : Type 0 where
  pub id : Model → Bytes
  pub type_of : Model → GoType
  pub marshal : Model → Result Bytes
  pub unmarshal : Bytes → Result Model
  pub itoa : ℕ → Bytes
  pub atoi : Bytes → Result ℕ

abbrev pub same_bytes : Bytes → Bytes → Bool
same_bytes [] [] = true
same_bytes [] (c ∷ cs) = false
same_bytes (b ∷ bs) [] = false
same_bytes (b ∷ bs) (c ∷ cs) = (b == c) && same_bytes bs cs

pub same_bytes_refl : (bs : Bytes) → same_bytes bs bs ≡ true
same_bytes_refl [] = refl
same_bytes_refl (b ∷ bs) = rw (==_refl b) (same_bytes_refl bs)

pub same_bytes→eq : (bs cs : Bytes) → same_bytes bs cs ≡ true → bs ≡ cs
same_bytes→eq [] [] h = refl
same_bytes→eq [] (c ∷ cs) h = cc
same_bytes→eq (b ∷ bs) [] h = cc
same_bytes→eq (b ∷ bs) (c ∷ cs) h = elim (Bool-cases (b == c)) [
  | inl e ↦
      let e' = (==_iff b c).0 e in let rest = rw e at h in let t = same_bytes→eq bs cs rest in cc
  | inr e ↦ let bad = rw e at h in cc
]

-- What an operation, and a batch in its order, make of what a key holds.
abbrev pub after_op : Bytes → Op → Option Bytes → Option Bytes
after_op key (put k value) old = if same_bytes k key then some value else old
after_op key (delete k) old = if same_bytes k key then none else old

abbrev pub after : Bytes → List Op → Option Bytes → Option Bytes
after key [] old = old
after key (op ∷ ops) old = after key ops (after_op key op old)

abbrev pub op_key : Op → Bytes
op_key (put k value) = k
op_key (delete k) = k

abbrev pub answer : Option Bytes → Result Bytes
answer (some value) = ok value
answer none = err key_not_found

abbrev pub is_some : Option Bytes → Bool
is_some (some value) = true
is_some none = false

-- What the documentation of goleveldb promises: a read that succeeds tells what the key holds, and
-- a batch that is written is applied as a whole and in order.
pub record LdbLaws {Store : Type 0} (ldb : Ldb Store) : Type 0 where
  pub content : Store → Bytes → Option Bytes
  pub get-ok :
      (s : Store) (key value : Bytes) → ldb.get s key ≡ ok value → content s key ≡ some value
  pub has-ok :
      (s : Store) (key : Bytes) (b : Bool) → ldb.has s key ≡ ok b → is_some (content s key) ≡ b
  pub get-key_not_found :
      (s : Store) (key : Bytes) → ldb.get s key ≡ err key_not_found → content s key ≡ none
  pub write-ok :
      (s s' : Store) (ops : List Op)
      → ldb.write s ops ≡ ok s'
      → (key : Bytes) → content s' key ≡ after key ops (content s key)

-- JSON gives back the models that it could encode, and decimals give back the number.
pub record CodecLaws {Model : Type 0} (codec : Codec Model) : Type 0 where
  pub unmarshal-marshal :
      (m : Model) (data_ : Bytes) → codec.marshal m ≡ ok data_ → codec.unmarshal data_ ≡ ok m
  pub atoi-itoa : (n : ℕ) → n < 2 ^ 64 → codec.atoi (codec.itoa n) ≡ ok n

module _ (key : Bytes) where
  pub after-append :
      (xs ys : List Op) (old : Option Bytes)
      → after key (xs ++ ys) old ≡ after key ys (after key xs old)
  after-append [] ys old = refl
  after-append (x ∷ xs) ys old = after-append xs ys (after_op key x old)

  after_op-other : (op : Op) (old : Option Bytes) → op_key op ≢ key → after_op key op old ≡ old
  after_op-other (put k v) old h = elim (Bool-cases (same_bytes k key)) [
    | inl e ↦ absurd (h (same_bytes→eq k key e))
    | inr e ↦ rw e
  ]
  after_op-other (delete k) old h = elim (Bool-cases (same_bytes k key)) [
    | inl e ↦ absurd (h (same_bytes→eq k key e))
    | inr e ↦ rw e
  ]

  -- Operations on other keys leave a key as it was.
  pub after-others :
      (ops : List Op) (old : Option Bytes)
      → All (λ op. op_key op ≢ key) ops
      → after key ops old ≡ old
  after-others [] old h = refl
  after-others (op ∷ ops) old h = rw (after_op-other op old h.0) (after-others ops old h.1)
