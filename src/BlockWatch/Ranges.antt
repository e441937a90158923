-- ===== src/BlockWatch/Ranges.antt =====
-- ethereum/blockwatch/block_watcher.go: `getSubBlockRanges`.
use native.Mathlib.Nat.{div-add-mod, mod-lt}
use x_mesh.Prelude.{
  ℕ, zero, suc, ◌+◌, ◌-◌, ◌*◌, ◌/◌, ◌%◌, ◌≤◌, ◌<◌, List, [], ◌∷◌, ◌≡◌, refl, ltb, ltb→lt,
  Bool-cases, inl, inr, if◌then◌else◌, min, arith, All,
}

pub record BlockRange : Type 0 where
  pub from_block : ℕ
  pub to_block : ℕ

-- The loop over the chunks: `blocks[i]` is `from + i`, so the slice `blocks[from_index:to_index]`
-- begins with `from + from_index` and ends with `from + to_index - 1`. `n` is the rounds left.
unfoldable pub chunk_ranges : ℕ → ℕ → ℕ → ℕ → ℕ → List BlockRange
chunk_ranges zero i from num_blocks range_size = []
chunk_ranges (suc n) i from num_blocks range_size =
    let from_index = i * range_size in
    let to_index = min (from_index + range_size) num_blocks in
    record { from_block = from + from_index; to_block = from + to_index - 1 }
    ∷ chunk_ranges n (i + 1) from num_blocks range_size

-- `numChunks`: the quotient, and one more chunk for a remainder.
unfoldable pub num_chunks : ℕ → ℕ → ℕ
num_chunks num_blocks range_size =
    let full = num_blocks / range_size in if ltb 0 (num_blocks % range_size) then full + 1 else full

-- `to - from < range_size` is written without subtraction, since `to` may be below `from`.
unfoldable pub get_sub_block_ranges : ℕ → ℕ → ℕ → List BlockRange
unfolding chunk_ranges num_chunks
get_sub_block_ranges from to range_size =
    if ltb to (from + range_size)
    then record { from_block = from; to_block = to } ∷ []
    else (let num_blocks = to - from + 1 in
        chunk_ranges (num_chunks num_blocks range_size) 0 from num_blocks range_size)

-- The ranges begin at `from`, each begins where the one before ended, and the last ends at `to`.
abbrev pub Tiles : ℕ → List BlockRange → ℕ → Type 0
Tiles from [] to = from ≡ to + 1
Tiles from (r ∷ rs) to = (r.from_block ≡ from) × (from ≤ r.to_block) × Tiles (r.to_block + 1) rs to

-- A range asks for at most `size` blocks.
abbrev pub IsWithin : ℕ → BlockRange → Type 0
IsWithin size r = r.to_block < r.from_block + size

chunk_ranges-Tiles :
    (n i from num_blocks size start to : ℕ)
    → 0 < size
    → from + num_blocks ≡ to + 1
    → start ≡ from + i * size
    → i * size + n * size < num_blocks
    → num_blocks ≤ i * size + suc n * size
    → Tiles start (chunk_ranges (suc n) i from num_blocks size) to
      × All (IsWithin size) (chunk_ranges (suc n) i from num_blocks size)
unfolding chunk_ranges
chunk_ranges-Tiles zero i from num_blocks size start to p e s q r = omega arith
chunk_ranges-Tiles (suc n) i from num_blocks size start to p e s q r =
    let next = from + min (i * size + size) num_blocks - 1 + 1 in
    let at : next ≡ from + (i + 1) * size = omega arith in
    let ih =
      chunk_ranges-Tiles n (i + 1) from num_blocks size next to p e at (omega arith)
        (omega arith) in
    ((omega arith, omega arith, ih.0), (omega arith, ih.1))

even_chunks :
    (k num size : ℕ)
    → 0 < size
    → 0 < num
    → size * k ≡ num
    → (n : ℕ) × (k ≡ suc n) × (n * size < num) × (num ≤ suc n * size)
even_chunks zero num size p q e = absurd (omega arith)
even_chunks (suc k) num size p q e = (k, refl, omega arith, omega arith)

num_chunks_enough :
    (num size : ℕ)
    → 0 < size
    → 0 < num
    → (n : ℕ) × (num_chunks num size ≡ suc n) × (n * size < num) × (num ≤ suc n * size)
unfolding num_chunks
num_chunks_enough num size p q =
    let split = div-add-mod num size in
    let low = mod-lt num p in
    elim (Bool-cases (ltb 0 (num % size))) [
      | inl more ↦
          let more_left = ltb→lt 0 (num % size) more in
          (num / size, ground arith, omega (arith, more_left), omega arith)
      | inr even ↦ rw even (even_chunks (num / size) num size p q (ground (arith, split)))
    ]

-- For a positive size and a range that is not inverted, the sub-ranges begin at the first block,
-- each begins behind the one before, none is empty, the last ends at the last block, and each has
-- at most as many blocks as the size.
pub get_sub_block_ranges-Tiles :
    (from to size : ℕ)
    → 0 < size
    → from ≤ to
    → Tiles from (get_sub_block_ranges from to size) to
      × All (IsWithin size) (get_sub_block_ranges from to size)
unfolding get_sub_block_ranges
get_sub_block_ranges-Tiles from to size p le = elim (Bool-cases (ltb to (from + size))) [
  | inl short ↦ rw short (omega (arith, ltb→lt to (from + size) short))
  | inr long ↦
      let (n, chunks, low, high) = num_chunks_enough (to - from + 1) size p (omega arith) in
      rw (long, chunks)
        (chunk_ranges-Tiles n 0 from (to - from + 1) size from to p (omega arith) (omega arith)
          (omega arith) (omega arith))
]
