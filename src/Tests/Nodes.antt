-- ===== src/Tests/Nodes.antt =====
-- An Ethereum node that serves one chain, and refuses the logs of more than two blocks at once.
use x_mesh.Prelude.{
  ℕ, ◌+◌, ◌-◌, inl, inr, refl, true, false, none, some, List, [], ◌∷◌, arith, leb, ltb,
  if◌then◌else◌, Bool-cases,
}
use x_mesh.Errors.{Result, ok, err, other}
use x_mesh.MiniHeader.{Log, MiniHeader}
use x_mesh.SimpleStack.{SimpleStack}
use x_mesh.BlockWatch.Types.{Client, Config, FilterQuery, of_block, of_range}
use x_mesh.BlockWatch.Linked.{FindsByHash}
use x_mesh.BlockWatch.Logs.{infura_too_many_results_err_msg, is_too_many_results}
use x_mesh.BlockWatch.Logs.Recursive.{keep, matches, Serves, Copes, logs_between}
use x_mesh.BlockWatch.Simple.{simple_stack}

abbrev pub block : ℕ → MiniHeader
block n = record { hash = 100 + n; parent = 99 + n; number = n; timestamp = 1000 + n; logs = [] }

abbrev pub log_of : ℕ → Log
log_of n = record {
  address = 7;
  topics = 1 ∷ [];
  payload = [];
  block_number = n;
  tx_hash = n;
  tx_index = 0;
  block_hash = 100 + n;
  index = 0;
  removed = false;
}

abbrev pub chain : ℕ → List Log
chain n = log_of n ∷ record (log_of n) { topics = 2 ∷ [] } ∷ []

abbrev answer : FilterQuery → Result (List Log)
answer (of_block hash topics) = ok (log_of (hash - 100) ∷ [])
answer (of_range from to topics) =
    if ltb to (from + 2)
    then ok (logs_between (λ b. keep (λ log. matches topics log.topics) (chain b)) from to)
    else err (other infura_too_many_results_err_msg)

-- The latest block is block 6.
abbrev pub node_client : Client (Unit {0})
node_client = record {
  header_by_number = λ n node. (elim n [ none ↦ ok (block 6) | some k ↦ ok (block k) ], node);
  header_by_hash = λ hash node.
      (if leb 100 hash then ok (block (hash - 100)) else err (other "not found"), node);
  filter_logs = λ q node. (answer q, node);
}

abbrev pub config : Config SimpleStack (Unit {0})
config = record { stack = simple_stack; client = node_client; with_logs = true; topics = 1 ∷ [] }

pub finds : FindsByHash node_client
finds hash node h e = ground arith

pub serves : Serves node_client chain
serves from to topics node logs le e = elim (Bool-cases (ltb to (from + 2))) [
  | inl small ↦ let e' = rw small at e in cc
  | inr large ↦ let e' = rw large at e in cc
]

pub copes : Copes config chain
unfolding is_too_many_results
copes from to topics node le = elim (Bool-cases (ltb to (from + 2))) [
  | inl small ↦
      inl (logs_between (λ b. keep (λ log. matches topics log.topics) (chain b)) from to, rw small)
  | inr large ↦ inr (other infura_too_many_results_err_msg, rw large, refl, ground arith)
]
