-- ===== src/Tests/Trimming.antt =====
-- Runs of trimming that removes two orders of the same second, and of adding an order.
use x_mesh.Prelude.{ℕ, ◌+◌, ◌*◌, ◌≡◌, refl, false, true, [], ◌∷◌, ◌++◌, arith}
use x_mesh.SlowCounter.{BigFloat}
use x_mesh.OrderWatch.{Order}
use x_mesh.OrderWatch.Watching.{is_watched}
use x_mesh.OrderWatch.Trim.{trimmed_result}
use x_mesh.OrderWatch.Trim.Forget.{Memory, forget_orders, finish, forget_trimmed}
use x_mesh.OrderWatch.Contracts.{parts_of, add_asset_data, remove_asset_data}
use x_mesh.Errors.{Result, ok}
use x_mesh.Orders.{SignedOrder}
use x_mesh.OrderValidator.{AcceptedOrderInfo}
use x_mesh.OrderWatch.Add.{setup_in_memory_order_state, setup_all}
use x_mesh.OrderWatch.Add.Watched.{Adds, setup_all-Adds}
use x_mesh.AssetData.{get_name, info_of, decode}
use x_mesh.OrderWatch.Trim.Stopped.{Stops, forget_trimmed-Stops}
use x_mesh.OrderWatch.Trim.Last.{forget_trimmed-last}
use x_mesh.Tests.Trees.{Entries, entries_laws}
use x_mesh.Tests.Validation.{order_for, byte_abi}
use x_mesh.Tests.Watching.{watched_order, setting, one_byte_injective, no_contracts}

-- Numbers stand for floating-point numbers.
abbrev whole_numbers : BigFloat ℕ
whole_numbers = record { of_int = λ n. n; add = λ a b. a + b; mul = λ a b. a * b; to_int = λ n. n }

abbrev other_order : Order
other_order = record watched_order { hash = 9 }

abbrev two_watched : Memory Entries ℕ
two_watched = record {
  tree = (5, (8 ∷ []) ∷ (9 ∷ []) ∷ []) ∷ [];
  contracts = no_contracts;
  known_exchanges = λ address. false;
  max_expiration_time = 100;
  max_expiration_counter = record {
    config = record { offset = 1; rate = 2; interval = 1; max_count = 100 };
    starting_count = 100;
    starting_time = 0;
    is_max = false;
  };
  saved = [];
}

forget_trimmed-last_example :
    is_watched setting entries_laws
      (forget_trimmed setting byte_abi 7 7 whole_numbers
        (trimmed_result 2 ((other_order ∷ []) ++ watched_order ∷ []))
        two_watched).1.tree
      watched_order
    ≡ is_watched setting entries_laws two_watched.tree watched_order
forget_trimmed-last_example =
    forget_trimmed-last setting entries_laws one_byte_injective byte_abi 7 7 whole_numbers 2
      (other_order ∷ []) watched_order two_watched (omega arith) ((λ e. omega (arith, e)), tt)

forget_trimmed-Stops_example :
    Stops setting entries_laws byte_abi 7 7 whole_numbers (other_order ∷ watched_order ∷ []) 4 100 (
      forget_trimmed setting byte_abi 7 7 whole_numbers
        (ok (4, other_order ∷ watched_order ∷ []))
        two_watched)
unfolding remove_asset_data forget_orders forget_trimmed finish parts_of get_name info_of decode
forget_trimmed-Stops_example =
    forget_trimmed-Stops setting entries_laws byte_abi 7 7 whole_numbers
      (other_order ∷ watched_order ∷ []) 4 two_watched refl

abbrev new_info : AcceptedOrderInfo
new_info = record {
  order_hash = 6;
  signed_order = order_for 50 6;
  fillable_taker_asset_amount = 50;
  is_new = true;
}

abbrev by_expiration : SignedOrder → Result ℕ
by_expiration order = ok order.expiration_time_seconds

setup_all-Adds_example :
    Adds setting entries_laws byte_abi by_expiration 7
      (new_info ∷ [])
      []
      (setup_all setting byte_abi by_expiration 7 (new_info ∷ []) [] two_watched)
unfolding add_asset_data setup_all setup_in_memory_order_state parts_of get_name info_of decode
setup_all-Adds_example =
    setup_all-Adds setting entries_laws byte_abi by_expiration 7 (new_info ∷ []) [] two_watched refl
