-- ===== src/BlockWatch/Logs/Recursive.antt =====
-- `filterLogsRecurisively` finds exactly the logs of its range.
use native.Mathlib.Nat.{zero-add}
use x_mesh.Prelude.{
  Bool, ◌&&◌, ◌||◌, if◌then◌else◌, refl, ◌∷◌, ℕ, zero, suc, ◌+◌, ◌-◌, ◌≤◌, ◌<◌, ◌≡◌, ◌⊎◌, sym, ap,
  ◌∙◌, subst, true, false, List, [], ◌++◌, ◌==◌, append_assoc, Bool-cases, inl, inr, arith,
}
use x_mesh.Errors.{Error, ok, err, Result-cases}
use x_mesh.MiniHeader.{Log}
use x_mesh.BlockWatch.Types.{of_range, Config, Client}
use x_mesh.BlockWatch.Logs.{
  is_too_many_results, end_first_half, query_topics, filter_logs_recursively,
}

-- The logs of `n` blocks from `from` on, where `chain` has the logs of each block.
unfoldable pub logs_from : (ℕ → List Log) → ℕ → ℕ → List Log
logs_from chain from zero = []
logs_from chain from (suc n) = chain from ++ logs_from chain (from + 1) n

-- The logs of the blocks from `from` to `to`.
abbrev pub logs_between : (ℕ → List Log) → ℕ → ℕ → List Log
logs_between chain from to = logs_from chain from (to + 1 - from)

pub logs_from-append :
    (chain : ℕ → List Log) (from m n : ℕ)
    → logs_from chain from m ++ logs_from chain (from + m) n ≡ logs_from chain from (m + n)
unfolding logs_from
logs_from-append chain from zero n = let e : from + 0 ≡ from = omega arith in rw (e, zero-add)
logs_from-append chain from (suc m) n =
    let e : from + suc m ≡ from + 1 + m = omega arith in
    let e' : suc m + n ≡ suc (m + n) = omega arith in
    rw (append_assoc, e, e') (ap (λ l. chain from ++ l) (logs_from-append chain (from + 1) m n))

pub logs_between-append :
    (chain : ℕ → List Log) (from mid to : ℕ)
    → from ≤ mid + 1
    → mid ≤ to
    → logs_between chain from mid ++ logs_between chain (mid + 1) to ≡ logs_between chain from to
logs_between-append chain from mid to p q =
    let at : mid + 1 ≡ from + (mid + 1 - from) = omega arith in
    let all : to + 1 - from ≡ mid + 1 - from + (to + 1 - (mid + 1)) = omega arith in
    rw all (
      subst
        (λ k.
          logs_between chain from mid ++ logs_from chain k (to + 1 - (mid + 1))
          ≡ logs_from chain from (mid + 1 - from + (to + 1 - (mid + 1))))
        (sym at) (logs_from-append chain from (mid + 1 - from) (to + 1 - (mid + 1))))

-- The logs that pass a test.
abbrev pub keep : (Log → Bool) → List Log → List Log
keep test [] = []
keep test (log ∷ logs) = let rest = keep test logs in if test log then log ∷ rest else rest

-- Whether a topic is one of some topics.
abbrev pub is_one_of : List ℕ → ℕ → Bool
is_one_of [] topic = false
is_one_of (t ∷ ts) topic = t == topic || is_one_of ts topic

-- The topics of a log against those of `eth_getLogs`: each place of a query has the alternatives for
-- that topic of a log, where none at all stand for any topic, and the log has no fewer topics.
abbrev pub matches : List (List ℕ) → List ℕ → Bool
matches [] topics = true
matches (alternatives ∷ query) [] = false
matches ([] ∷ query) (topic ∷ topics) = matches query topics
matches ((a ∷ others) ∷ query) (topic ∷ topics) =
    is_one_of (a ∷ others) topic && matches query topics

-- The node serves one chain: an answer for a range has exactly the logs of its blocks that match the
-- topics of the query.
abbrev pub Serves : {W : Type 0} → Client W → (ℕ → List Log) → Type 0
Serves {W} client chain =
    (from to : ℕ) (topics : List (List ℕ)) (node : W) (logs : List Log)
    → from ≤ to
    → (client.filter_logs (of_range from to topics) node).0 ≡ ok logs
    → logs ≡ logs_between (λ b. keep (λ log. matches topics log.topics) (chain b)) from to

-- The logs that a watcher of some topics wants: those whose first topic is one of them, or all logs if
-- it watches for none.
abbrev has_first_of : List ℕ → List ℕ → Bool
has_first_of watched [] = false
has_first_of watched (topic ∷ topics) = is_one_of watched topic

abbrev pub wanted : List ℕ → List Log → List Log
wanted [] logs = logs
wanted (t ∷ ts) logs = keep (λ log. has_first_of (t ∷ ts) log.topics) logs

keep_all : (logs : List Log) → keep (λ log. true) logs ≡ logs
keep_all [] = refl
keep_all (log ∷ logs) = ap (◌∷◌ log) (keep_all logs)

and_true : (b : Bool) → (b && true) ≡ b
and_true true = refl
and_true false = refl

matches-first :
    (t : ℕ) (ts topics : List ℕ) → matches ((t ∷ ts) ∷ []) topics ≡ has_first_of (t ∷ ts) topics
matches-first t ts [] = refl
matches-first t ts (topic ∷ topics) = and_true (is_one_of (t ∷ ts) topic)

keep_same :
    (test test' : Log → Bool) (logs : List Log)
    → ((log : Log) → test log ≡ test' log)
    → keep test logs ≡ keep test' logs
keep_same test test' [] h = refl
keep_same test test' (log ∷ logs) h =
    rw (h log) (ap (λ rest. if test' log then log ∷ rest else rest) (keep_same test test' logs h))

end_first_half_bounds :
    (from to : ℕ) → from < to → (from ≤ end_first_half from to) × (end_first_half from to < to)
unfolding end_first_half
end_first_half_bounds from to p = ground arith

module _ {S W : Type 0} (config : Config S W) (chain : ℕ → List Log) where
  open config use {client, topics}

  -- What the watcher asks for is what it wants.
  query_topics-wanted :
      (watched : List ℕ) (logs : List Log)
      → keep (λ log. matches (query_topics config watched) log.topics) logs ≡ wanted watched logs
  unfolding query_topics
  query_topics-wanted [] logs = keep_all logs
  query_topics-wanted (t ∷ ts) logs = keep_same _ _ logs (λ log. matches-first t ts log.topics)

  -- The answers to the watcher's own queries have the logs of `chain`.
  abbrev pub ServesLogs : Type 0
  ServesLogs =
      (from to : ℕ) (node : W) (logs : List Log)
      → from ≤ to
      → (client.filter_logs (of_range from to (query_topics config topics)) node).0 ≡ ok logs
      → logs ≡ logs_between chain from to

  -- If the answers of the node have the logs of a chain, then what the recursive query returns for a range that is not
  -- inverted is the logs given to it followed by exactly the logs of the blocks of the range,
  -- whatever ranges the node refused on the way.
  pub filter_logs_recursively_sound :
      ServesLogs
      → (fuel from to : ℕ) (all_logs : List Log) (node : W) (logs : List Log) → from ≤ to
      → (filter_logs_recursively config fuel from to all_logs node).0 ≡ ok logs
      → logs ≡ all_logs ++ logs_between chain from to
  unfolding filter_logs_recursively
  filter_logs_recursively_sound serves zero from to all_logs node logs le e = cc
  filter_logs_recursively_sound serves (suc fuel) from to all_logs node logs le e =
      let asked = of_range from to (query_topics config topics) in
      elim (Result-cases (client.filter_logs asked node).0) [
        | inl (found, answered) ↦
            let e' : ok (all_logs ++ found) ≡ ok logs =
              rw (answered, filter_logs_recursively) at e in
            cc (serves from to node found le answered)
        | inr (x, refused) ↦ elim (Bool-cases (is_too_many_results x)) [
          | inr fatal ↦ let e' = rw (refused, fatal, filter_logs_recursively) at e in cc
          | inl many ↦ elim (Bool-cases (from == to)) [
            | inl single ↦ let e' = rw (refused, many, single, filter_logs_recursively) at e in cc
            | inr several ↦
                let middle = end_first_half from to in
                let node' = (client.filter_logs asked node).1 in
                let half = filter_logs_recursively config fuel from middle all_logs node' in
                let (low, high) = end_first_half_bounds from to (ground arith) in
                elim (Result-cases half.0) [
                  | inr (y, failed) ↦
                      let e' = rw (refused, many, several, failed, filter_logs_recursively) at e in
                      cc
                  | inl (found, done) ↦
                      let e' = rw (refused, many, several, done, filter_logs_recursively) at e in
                      let first =
                        filter_logs_recursively_sound serves fuel from middle all_logs node' found
                          low done in
                      let second =
                        filter_logs_recursively_sound serves fuel (middle + 1) to found half.1 logs
                          (omega (arith, high)) e' in
                      second
                      ∙ ap (λ l. l ++ logs_between chain (middle + 1) to) first
                      ∙ append_assoc all_logs _ _
                      ∙ ap (λ l. all_logs ++ l)
                          (logs_between-append chain from middle to (omega arith) (omega arith))
                ]
          ]
        ]
      ]

  -- A node that refuses at most the ranges of several blocks, and those only for their many results.
  abbrev pub Copes : Type 0
  Copes =
      (from to : ℕ) (topics : List (List ℕ)) (node : W)
      → from ≤ to
      → ((logs : List Log) × ((client.filter_logs (of_range from to topics) node).0 ≡ ok logs))
        ⊎ ((e : Error) × ((client.filter_logs (of_range from to topics) node).0 ≡ err e)
            × (is_too_many_results e ≡ true)
            × (from < to))

  -- If the node refuses only ranges of several blocks, and those for too many results, then with
  -- more fuel than the length of a range that is not inverted the recursive query returns logs.
  pub filter_logs_recursively_total :
      Copes
      → (fuel from to : ℕ) (all_logs : List Log) (node : W) → from ≤ to
      → to - from < fuel
      → (logs : List Log) × ((filter_logs_recursively config fuel from to all_logs node).0
          ≡ ok logs)
  unfolding filter_logs_recursively
  filter_logs_recursively_total copes zero from to all_logs node le enough = absurd (omega arith)
  filter_logs_recursively_total copes (suc fuel) from to all_logs node le enough =
      elim (copes from to (query_topics config topics) node le) [
        | inl (found, answered) ↦ (all_logs ++ found, rw (answered, filter_logs_recursively))
        | inr (x, refused, many, lt) ↦
            let several : (from == to) ≡ false = ground arith in
            let middle = end_first_half from to in
            let node' =
              (client.filter_logs (of_range from to (query_topics config topics)) node).1 in
            let half = filter_logs_recursively config fuel from middle all_logs node' in
            let (low, high) = end_first_half_bounds from to lt in
            let (found, done) =
              filter_logs_recursively_total copes fuel from middle all_logs node' low
                (omega (arith, high)) in
            let (logs, rest) =
              filter_logs_recursively_total copes fuel (middle + 1) to found half.1
                (omega (arith, high)) (omega (arith, low)) in
            (logs, rw (refused, many, several, done, filter_logs_recursively) rest)
      ]

module _ {S W : Type 0} (config : Config S W) (chain : ℕ → List Log) where
  open config use {client, topics}

  pub Serves-ServesLogs : Serves client chain → ServesLogs config (λ b. wanted topics (chain b))
  Serves-ServesLogs serves from to node logs le e =
      serves from to (query_topics config topics) node logs le e
      ∙ ap (λ served. logs_between served from to)
          (λ i b. query_topics-wanted config chain topics (chain b) i)
