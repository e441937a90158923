-- ===== src/SimpleStack.antt =====
-- ethereum/simplestack/simple_stack.go: the stack of block headers, and the updates since the last
-- checkpoint. A method returns its results beside the new stack. The slice `miniHeaders` is the
-- list in the same order, so the top is the last element. The mutex makes a method one step.
pub mod Undo
pub mod Reset
pub mod Bounds
pub mod Runs
use x_mesh.Prelude.{
  ℕ, zero, suc, ◌+◌, Bool, true, false, ◌||◌, Option, none, some, List, [], ◌∷◌, ◌++◌, reverse,
  ◌==◌, if◌then◌else◌, length, tail, get_last?, drop_last,
}
use x_mesh.Errors.{Error, duplicate_block, no_checkpoint, wrong_checkpoint, panic, Result, ok, err}
use x_mesh.MiniHeader.{MiniHeader}

pub data UpdateType : Type 0 where
  pop push : UpdateType

pub record Update : Type 0 where
  pub type : UpdateType
  pub mini_header : MiniHeader

pub record SimpleStack : Type 0 where
  pub limit : ℕ
  pub mini_headers : List MiniHeader
  pub updates : List Update
  pub latest_checkpoint_id : ℕ

unfoldable pub new : ℕ → List MiniHeader → SimpleStack
new retention_limit mini_headers = record {
  limit = retention_limit;
  mini_headers = mini_headers;
  updates = [];
  latest_checkpoint_id = 0;
}

-- `nil, nil` on an empty stack
unfoldable pub peek : SimpleStack → Result (Option MiniHeader)
peek s = ok (get_last? s.mini_headers)

popped : Option MiniHeader → SimpleStack → Result (Option MiniHeader) × SimpleStack
popped none s = (ok none, s)
popped (some top) s = (
  ok (some top),
  record s {
    mini_headers = drop_last s.mini_headers;
    updates = s.updates ++ record { type = UpdateType.pop; mini_header = top } ∷ [];
  },
)

-- `Pop` and `pop`
unfoldable pub pop_header : SimpleStack → Result (Option MiniHeader) × SimpleStack
unfolding popped
pop_header s = popped (get_last? s.mini_headers) s

-- the duplicate check of `push`
unfoldable pub has_number : ℕ → List MiniHeader → Bool
has_number n [] = false
has_number n (h ∷ hs) = h.number == n || has_number n hs

-- `s.miniHeaders[1:]`, which panics on an empty slice
unfoldable pub drop_oldest : List MiniHeader → Result (List MiniHeader)
drop_oldest [] = err panic
drop_oldest (h ∷ hs) = ok hs

-- the headers that `push` appends to
unfoldable pub make_room : ℕ → List MiniHeader → Result (List MiniHeader)
unfolding drop_oldest
make_room limit hs = if length hs == limit then drop_oldest hs else ok hs

pushed : MiniHeader → Result (List MiniHeader) → SimpleStack → Option Error × SimpleStack
pushed h (err e) s = (some e, s)
pushed h (ok hs) s = (
  none,
  record s {
    mini_headers = hs ++ h ∷ [];
    updates = s.updates ++ record { type = UpdateType.push; mini_header = h } ∷ [];
  },
)

-- `Push` and `push`
unfoldable pub push_header : MiniHeader → SimpleStack → Option Error × SimpleStack
unfolding pushed
push_header h s =
    if has_number h.number s.mini_headers
    then (some (duplicate_block h.number), s)
    else pushed h (make_room s.limit s.mini_headers) s

unfoldable pub peek_all : SimpleStack → Result (List MiniHeader)
peek_all s = ok s.mini_headers

unfoldable pub clear : SimpleStack → Option Error × SimpleStack
clear s = (none, record s { mini_headers = []; updates = []; latest_checkpoint_id = 0 })

unfoldable pub checkpoint : SimpleStack → Result ℕ × SimpleStack
checkpoint s =
    let id = s.latest_checkpoint_id + 1 in
    (ok id, record s { updates = []; latest_checkpoint_id = id })

-- the two results of `pop` seen as the `error` alone
abbrev pop_error : Result (Option MiniHeader) × SimpleStack → Option Error × SimpleStack
pop_error (ok h, s) = (none, s)
pop_error (err e, s) = (some e, s)

-- one round of the loop of `Reset`
unfoldable pub revert : Update → SimpleStack → Option Error × SimpleStack
revert u s = elim (u.type) [
  | UpdateType.pop ↦ push_header u.mini_header s
  | UpdateType.push ↦ pop_error (pop_header s)
]

-- the loop of `Reset`, over the updates from the latest to the first. The loop reads `s.updates[i]`
-- below the length at its start, which what `push` and `pop` append does not change. The clause of
-- its `switch` for an unknown update type has no counterpart: there are two types.
unfoldable pub revert_all : List Update → SimpleStack → Option Error × SimpleStack
unfolding revert
revert_all [] s = (none, record s { updates = [] })
revert_all (u ∷ us) s =
    let (e, s') = revert u s in elim e [ some x ↦ (some x, s') | none ↦ revert_all us s' ]

unfoldable pub reset : ℕ → SimpleStack → Option Error × SimpleStack
unfolding revert_all
reset checkpoint_id s =
    if s.latest_checkpoint_id == 0
    then (some no_checkpoint, s)
    else if checkpoint_id == s.latest_checkpoint_id
    then revert_all (reverse s.updates) s
    else (some (wrong_checkpoint checkpoint_id s.latest_checkpoint_id), s)

unfoldable pub get_updates : SimpleStack → List Update
get_updates s = s.updates
