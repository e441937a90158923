-- ===== src/SlowCounter/Growth.antt =====
-- The slow counter (zeroex/orderwatch/slowcounter/slow_counter.go): how it grows, and its maximum.
use x_mesh.Prelude.{
  ℕ, zero, suc, ◌+◌, ◌-◌, ◌*◌, ◌/◌, ◌^◌, ◌≤◌, ◌<◌, min, ◌≡◌, ap, sym, ◌∙◌, inl, inr, false, ltb,
  if◌then◌else◌, Bool-cases, arith,
}
use native.Mathlib.Nat.{pow-zero, pow-succ', one-le-pow, le-mul_of_pos_right, mul-one, mul_assoc}
use x_mesh.SlowCounter.{BigFloat, SlowCounter, grow, limit_count, count_after, count_at}

-- `big.NewFloat` gives a `big.Float` 53 bits of precision, which `SetInt` keeps: whole numbers below 2^53
-- fit, so that sums and products of them are exact.
pub record IsExact {F : Type 0} (float : BigFloat F) : Type 0 where
  pub add-of_int :
      (a b : ℕ)
      → a + b < 2 ^ 53
      → float.add (float.of_int a) (float.of_int b) ≡ float.of_int (a + b)
  pub mul-of_int :
      (a b : ℕ)
      → a * b < 2 ^ 53
      → float.mul (float.of_int a) (float.of_int b) ≡ float.of_int (a * b)
  pub to_int-of_int : (a : ℕ) → a < 2 ^ 53 → float.to_int (float.of_int a) ≡ a

times_power-zero : (a rate : ℕ) → a ≡ a * rate ^ 0
times_power-zero a rate = sym (ap (λ x. a * x) (pow-zero rate) ∙ mul-one a)

times_power-suc : (a rate n : ℕ) → a * rate * rate ^ n ≡ a * rate ^ suc n
times_power-suc a rate n = mul_assoc a rate (rate ^ n) ∙ ap (λ x. a * x) (sym (pow-succ' rate n))

times_power-grows : (a rate n : ℕ) → 0 < rate → a ≤ a * rate ^ n
times_power-grows a rate n positive = le-mul_of_pos_right a (one-le-pow n rate positive)

module _ {F : Type 0} (float : BigFloat F) where
  grow-power :
      (exact : IsExact float) (n rate offset : ℕ)
      → 0 < rate
      → offset * rate ^ n < 2 ^ 53
      → grow float n (float.of_int rate) (float.of_int offset) ≡ float.of_int (offset * rate ^ n)
  unfolding grow
  grow-power exact zero rate offset positive small = ap float.of_int (times_power-zero offset rate)
  grow-power exact (suc n) rate offset positive small =
      let e = times_power-suc offset rate n in
      rw
        (exact.mul-of_int offset rate
          (omega (arith, e, small, times_power-grows (offset * rate) rate n positive)))
        (grow-power exact n rate (offset * rate) positive (omega (arith, e, small))
          ∙ ap float.of_int e)

  -- The count at the start is at most the maximum.
  abbrev pub IsBounded : SlowCounter F → Type 0
  IsBounded sc = sc.starting_count ≤ sc.config.max_count

  count_after-bound :
      (sc : SlowCounter F) (n : ℕ)
      → IsBounded sc
      → ((count_after float n sc).0 ≤ sc.config.max_count) × IsBounded (count_after float n sc).1
  unfolding count_after limit_count
  count_after-bound sc zero bounded = (bounded, bounded)
  count_after-bound sc (suc n) bounded = limited _
    where
      limited :
          (current : ℕ)
          → ((limit_count float current sc).0 ≤ sc.config.max_count)
            × IsBounded (limit_count float current sc).1
      limited current = elim (Bool-cases (ltb sc.config.max_count current)) [
        | inl over ↦ simp (over, limit_count) (omega arith, bounded)
        | inr under ↦ simp (under, limit_count) (ground arith, bounded)
      ]

  -- If the count at the start is at most the maximum, then Count is at most the maximum at every
  -- time, and the count at the start stays at most the maximum.
  pub count_at-bound :
      (sc : SlowCounter F) (now : ℕ)
      → IsBounded sc
      → ((count_at float now sc).0 ≤ sc.config.max_count) × IsBounded (count_at float now sc).1
  unfolding count_at
  count_at-bound sc now bounded = elim (Bool-cases sc.is_max) [
    | inl m ↦ simp (m, count_at) (omega arith, bounded)
    | inr m ↦
        simp (m, count_at)
          (count_after-bound sc ((now - sc.starting_time) / sc.config.interval) bounded)
  ]

  -- If sums and products of whole numbers below 2^53 are exact, the rate is a positive whole
  -- number, the counter does not know yet that it is at its maximum, and the sum stays below
  -- 2^53, then after n + 1 intervals Count is the least of the maximum and the count at the start
  -- plus the offset times the n-th power of the rate.
  pub count_at-power :
      (exact : IsExact float) (sc : SlowCounter F) (now rate n : ℕ)
      → sc.is_max ≡ false
      → sc.config.rate ≡ float.of_int rate
      → 0 < rate
      → (now - sc.starting_time) / sc.config.interval ≡ suc n
      → sc.starting_count + sc.config.offset * rate ^ n < 2 ^ 53
      → (count_at float now sc).0
        ≡ min sc.config.max_count (sc.starting_count + sc.config.offset * rate ^ n)
  unfolding count_at count_after limit_count
  count_at-power exact sc now rate n fresh rate_eq positive increments small =
      let offset = sc.config.offset in
      let total = sc.starting_count + offset * rate ^ n in
      let grown =
        ap (λ r. grow float n r (float.of_int offset)) rate_eq
        ∙ grow-power exact n rate offset positive (omega (arith, small)) in
      let sum =
        ap (λ x. float.to_int (float.add (float.of_int sc.starting_count) x)) grown
        ∙ ap float.to_int (exact.add-of_int sc.starting_count (offset * rate ^ n) small)
        ∙ exact.to_int-of_int total small in
      ap
        (λ b.
          (if b
            then (sc.config.max_count, sc)
            else count_after float ((now - sc.starting_time) / sc.config.interval) sc).0)
        fresh
      ∙ ap (λ k. (count_after float k sc).0) increments
      ∙ ap (λ x. (limit_count float x sc).0) sum
      ∙ limited total
    where
      limited : (x : ℕ) → (limit_count float x sc).0 ≡ min sc.config.max_count x
      limited x = elim (Bool-cases (ltb sc.config.max_count x)) [
        | inl over ↦ simp (over, limit_count) (ground arith)
        | inr under ↦ simp (under, limit_count) (ground arith)
      ]
