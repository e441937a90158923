-- ===== src/SlowCounter.antt =====
-- zeroex/orderwatch/slowcounter/slow_counter.go: a counter that grows with the time since it was
-- started or reset. The caller gives the time, in the unit of the interval.
pub mod Growth
use x_mesh.Prelude.{
  ℕ, zero, suc, ◌+◌, ◌-◌, ◌*◌, ◌/◌, Bool, true, false, Option, none, some, ltb, ◌==◌, if◌then◌else◌,
}
use x_mesh.Errors.{other, Result, ok, err}

-- What the counter uses of `big.Float`: `SetInt`, `Add`, `Mul` and `Int`.
pub record BigFloat (F : Type 0) : Type 0 where
  pub of_int : ℕ → F
  pub add : F → F → F
  pub mul : F → F → F
  pub to_int : F → ℕ

-- A nil `MaxCount` is `none`.
pub record CounterConfig (F : Type 0) : Type 0 where
  pub offset : ℕ
  pub rate : F
  pub interval : ℕ
  pub max_count : ℕ

pub record SlowCounter (F : Type 0) : Type 0 where
  pub config : CounterConfig F
  pub starting_count : ℕ
  pub starting_time : ℕ
  pub is_max : Bool

module _ {F : Type 0} (float : BigFloat F) where
  -- `New`, from the parts of the configuration
  unfoldable pub new_counter : ℕ → F → ℕ → Option ℕ → ℕ → ℕ → Result (SlowCounter F)
  new_counter offset rate interval none count now = err (other "config.MaxCount cannot be nil")
  new_counter offset rate interval (some max_count) count now =
      if interval == 0
      then err (other "config.Interval cannot be 0")
      else ok (record {
        config = record {
          offset = offset;
          rate = rate;
          interval = interval;
          max_count = max_count;
        };
        starting_count = count;
        starting_time = now;
        is_max = false;
      })

  -- the loop of `Count`
  unfoldable pub grow : ℕ → F → F → F
  grow zero rate offset = offset
  grow (suc n) rate offset = grow n rate (float.mul offset rate)

  -- `if currentCountInt.Cmp(sc.config.MaxCount) == 1`
  unfoldable pub limit_count : ℕ → SlowCounter F → ℕ × SlowCounter F
  limit_count current sc =
      if ltb sc.config.max_count current
      then (sc.config.max_count, record sc { is_max = true })
      else (current, sc)

  -- `Count` behind the number of increments
  unfoldable pub count_after : ℕ → SlowCounter F → ℕ × SlowCounter F
  unfolding grow limit_count
  count_after zero sc = (sc.starting_count, sc)
  count_after (suc n) sc =
      limit_count
        (float.to_int (
          float.add (float.of_int sc.starting_count)
            (grow n sc.config.rate (float.of_int sc.config.offset))))
        sc

  unfoldable pub count_at : ℕ → SlowCounter F → ℕ × SlowCounter F
  unfolding count_after
  count_at now sc =
      if sc.is_max
      then (sc.config.max_count, sc)
      else count_after ((now - sc.starting_time) / sc.config.interval) sc

  unfoldable pub reset_counter : ℕ → ℕ → SlowCounter F → SlowCounter F
  reset_counter count now sc = record sc {
    is_max = false;
    starting_count = count;
    starting_time = now;
  }
