-- ===== src/Tests/Stacks.antt =====
-- simple_stack.go at concrete stacks.
use x_mesh.Prelude.{
  ℕ, ◌+◌, ◌≡◌, refl, none, some, List, [], ◌∷◌, arith, tail, length, IsSuffix, false,
}
use x_mesh.Errors.{ok, duplicate_block, no_checkpoint, wrong_checkpoint}
use x_mesh.MiniHeader.{MiniHeader}
use x_mesh.SimpleStack.{
  SimpleStack, new, pop_header, push_header, checkpoint, reset, has_number, peek, make_room,
  revert_all,
}
use x_mesh.SimpleStack.Bounds.{IsValid, push_header-IsValid}
use x_mesh.SimpleStack.Runs.{
  Call, pop, push, calls, call, HasRoom, reset-calls, reset-calls_exact, reset-push_full,
}
use x_mesh.SimpleStack.Undo.{restored}

-- A header of the block `n` with the hash `hash`.
abbrev pub header : ℕ → ℕ → ℕ → MiniHeader
header hash parent n = record {
  hash = hash;
  parent = parent;
  number = n;
  timestamp = 1000 + n;
  logs = [];
}

abbrev stack : SimpleStack
stack = new 3 (header 101 100 1 ∷ header 102 101 2 ∷ [])

abbrev full : SimpleStack
full = new 2 (header 101 100 1 ∷ header 102 101 2 ∷ [])

stack-IsValid : IsValid stack
unfolding new has_number
stack-IsValid = record {
  positive = omega arith;
  bounded = omega arith;
  distinct = (refl, (refl, tt));
}

full-IsValid : IsValid full
unfolding new has_number
full-IsValid = record {
  positive = omega arith;
  bounded = omega arith;
  distinct = (refl, (refl, tt));
}

abbrev run : List Call
run = pop ∷ push (header 202 101 2) ∷ push (header 203 202 3) ∷ pop ∷ []

program : Unit {0}
unfolding new peek pop_header push_header checkpoint reset has_number make_room revert_all calls
    call
program = tt

run_resets : (reset 1 (calls run (checkpoint stack).1)).1.mini_headers ≡ stack.mini_headers
unfolding program
run_resets = refl

push_twice : (push_header (header 202 101 2) stack).0 ≡ some (duplicate_block 2)
unfolding program
push_twice = refl

reset_first : (reset 1 stack).0 ≡ some no_checkpoint
unfolding program
reset_first = refl

reset_wrong : (reset 7 (checkpoint stack).1).0 ≡ some (wrong_checkpoint 7 1)
unfolding program
reset_wrong = refl

push_header-IsValid_example : IsValid (push_header (header 103 102 3) full).1
push_header-IsValid_example = push_header-IsValid (header 103 102 3) full full-IsValid

reset-calls_example :
    (id : ℕ) × ((checkpoint full).0 ≡ ok id)
    × (hs : List MiniHeader) × (reset id (calls run (checkpoint full).1)
        ≡ (none, restored (calls run (checkpoint full).1) hs))
    × IsSuffix hs full.mini_headers
reset-calls_example = reset-calls full run full-IsValid

room : HasRoom run (checkpoint stack).1
unfolding program
room = (omega arith, (omega arith, tt))

reset-calls_exact_example :
    reset (stack.latest_checkpoint_id + 1) (calls run (checkpoint stack).1)
    ≡ (none, restored (calls run (checkpoint stack).1) stack.mini_headers)
reset-calls_exact_example = reset-calls_exact stack run stack-IsValid room

new_number : has_number 3 full.mini_headers ≡ false
unfolding program
new_number = refl

full_length : length full.mini_headers ≡ full.limit
unfolding program
full_length = refl

reset-push_full_example :
    reset (full.latest_checkpoint_id + 1) (push_header (header 103 102 3) (checkpoint full).1).1 ≡ (
      none,
      restored (push_header (header 103 102 3) (checkpoint full).1).1 (tail full.mini_headers),
    )
reset-push_full_example =
    reset-push_full full (header 103 102 3) full-IsValid full_length new_number
