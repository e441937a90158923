-- ===== src/OrderWatch/Trim/Raise.antt =====
-- `increaseMaxExpirationTimeIfPossible` of zeroex/orderwatch/order_watcher.go. The counter reads the
-- clock.
use x_mesh.Prelude.{ℕ, Option, none, some, [], ◌∷◌, ◌++◌, ◌==◌, ltb, if◌then◌else◌}
use x_mesh.Errors.{Error, ok, err}
use x_mesh.Db.Operations.{count}
use x_mesh.Db.Transaction.{Db}
use x_mesh.SlowCounter.{SlowCounter, BigFloat, count_at}
use x_mesh.OrderWatch.{Setting}
use x_mesh.OrderWatch.Trim.Forget.{Memory}

module _ {T Store F : Type 0} (s : Setting T Store) (max_orders now : ℕ) (float : BigFloat F) where
  -- the new maximum, with what the counter became
  abbrev raise : ℕ × SlowCounter F → Memory T F → Memory T F
  raise (new_max, counter) w =
      if w.max_expiration_time == new_max
      then record w { max_expiration_counter = counter }
      else record w {
        max_expiration_time = new_max;
        max_expiration_counter = counter;
        saved = w.saved ++ new_max ∷ [];
      }

  unfoldable pub increase_max_expiration_time_if_possible :
      Memory T F → Db Store → Option Error × Memory T F
  unfolding count_at
  increase_max_expiration_time_if_possible w db = elim (count s.codec s.ldb s.info db.store) [
    | err e ↦ (some e, w)
    | ok order_count ↦ (
      none,
      if ltb order_count max_orders
          then raise (count_at float now w.max_expiration_counter) w
          else w,
    )
  ]
