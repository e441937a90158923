-- ===== src/Errors.antt =====
-- Go's `error` values: the errors that the modelled code makes or compares. An error that comes
-- from code outside the model (the RPC client, the database, the context) is `other` with its
-- message; a run-time panic of Go is `panic`.
use x_mesh.Prelude.{ℕ, String, Bool, true, false, List, ◌≡◌, refl, ◌⊎◌, inl, inr}

pub data Error : Type 0 where
  -- simple_stack.go
  duplicate_block : ℕ → Error
  no_checkpoint : Error
  wrong_checkpoint : ℕ → ℕ → Error
  -- block_watcher.go
  already_started : Error
  too_many_blocks_behind : ℕ → Error
  too_many_logs : ℕ → Error
  out_of_fuel : Error
  -- db: `leveldb.ErrNotFound`, errors.go, col_info.go and transaction.go
  key_not_found : Error
  not_found : List ℕ → Error
  already_exists : List ℕ → Error
  incorrect_type : Error
  discarded : Error
  committed : Error
  conflicting_operations : String → Error
  panic : Error
  other : String → Error

-- err == leveldb.ErrNotFound
abbrev pub is_key_not_found : Error → Bool
is_key_not_found key_not_found = true
is_key_not_found e = false

-- A pair of Go results `(value, error)` of which one is nil.
pub data Result {ℓ} (Value : Type ℓ) : Type ℓ where
  ok : Value → Result Value
  err : Error → Result Value

-- The rest of a method behind `if err != nil { return err }`.
infixl 5 ◌>>=◌
abbrev pub ◌>>=◌ {ℓ κ} :
    {Value : Type ℓ} {Next : Type κ} → Result Value → (Value → Result Next) → Result Next
err failure >>= rest = err failure
ok value >>= rest = rest value

-- A result is a value or an error.
pub Result-cases {ℓ} :
    {Value : Type ℓ} (r : Result Value)
    → ((value : Value) × (r ≡ ok value)) ⊎ ((failure : Error) × (r ≡ err failure))
Result-cases (err failure) = inr (failure, refl)
Result-cases (ok value) = inl (value, refl)

-- If the whole succeeds, then so do the first step and what follows on its value.
pub >>=-ok {ℓ κ} :
    {Value : Type ℓ} {Next : Type κ} {final : Next} (first : Result Value)
    (rest : Value → Result Next)
    → (first >>= rest) ≡ ok final
    → (value : Value) × (first ≡ ok value) × (rest value ≡ ok final)
>>=-ok first rest both = elim (Result-cases first) [
  | inr (failure, e) ↦ let bad = rw e at both in cc
  | inl (value, e) ↦ (value, e, rw e at both)
]
