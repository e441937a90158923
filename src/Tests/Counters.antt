-- ===== src/Tests/Counters.antt =====
-- Runs of the slow counter on numbers that are exact.
use x_mesh.Prelude.{ℕ, ◌+◌, ◌*◌, ◌^◌, ◌≤◌, min, ◌≡◌, refl, false, arith}
use x_mesh.SlowCounter.{BigFloat, SlowCounter, count_at}
use x_mesh.SlowCounter.Growth.{IsExact, IsBounded, count_at-bound, count_at-power}

abbrev exact_float : BigFloat ℕ
exact_float = record { of_int = λ n. n; add = λ a b. a + b; mul = λ a b. a * b; to_int = λ n. n }

abbrev exact_laws : IsExact exact_float
exact_laws = record {
  add-of_int = λ a b small. refl;
  mul-of_int = λ a b small. refl;
  to_int-of_int = λ a small. refl;
}

-- 100 at the time 0, then 105, 115, 145, ... up to 130
abbrev counter : SlowCounter ℕ
counter = record {
  config = record { offset = 5; rate = 3; interval = 10; max_count = 130 };
  starting_count = 100;
  starting_time = 0;
  is_max = false;
}

count_at-bound_example :
    ((count_at exact_float 31 counter).0 ≤ 130)
    × IsBounded exact_float (count_at exact_float 31 counter).1
count_at-bound_example = count_at-bound exact_float counter 31 (omega arith)

count_at-power_example : (count_at exact_float 25 counter).0 ≡ min 130 (100 + 5 * 3 ^ 1)
count_at-power_example =
    count_at-power exact_float exact_laws counter 25 3 1 refl refl (omega arith) refl (omega arith)
