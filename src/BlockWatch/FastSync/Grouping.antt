-- ===== src/BlockWatch/FastSync/Grouping.antt =====
-- `getMissedEventsToBackfill` groups the logs by block.
use x_mesh.Prelude.{
  ℕ, ◌≡◌, refl, sym, ap, ◌∙◌, none, some, List, [], ◌∷◌, ◌++◌, ◌==◌, if◌then◌else◌, append_assoc,
  append-nil, Bool-cases, Option-cases, inl, inr, arith,
}
use x_mesh.Errors.{ok, Result-cases}
use x_mesh.MiniHeader.{Log, MiniHeader}
use x_mesh.BlockWatch.Types.{Config}
use x_mesh.BlockWatch.FastSync.{add_log, new_header, group_logs}

-- The logs of one block among `ls`, in their order.
abbrev pub logs_in_block : ℕ → List Log → List Log
logs_in_block hash [] = []
logs_in_block hash (l ∷ ls) =
    let rest = logs_in_block hash ls in if l.block_hash == hash then l ∷ rest else rest

-- The logs that the headers have for one block.
abbrev pub logs_held : ℕ → List MiniHeader → List Log
logs_held hash [] = []
logs_held hash (h ∷ hs) = let rest = logs_held hash hs in if h.hash == hash then h.logs else rest

logs_in_block-append :
    (hash : ℕ) (xs ys : List Log)
    → logs_in_block hash (xs ++ ys) ≡ logs_in_block hash xs ++ logs_in_block hash ys
logs_in_block-append hash [] ys = refl
logs_in_block-append hash (x ∷ xs) ys = ground (arith, logs_in_block-append hash xs ys)

logs_held-add_log :
    (l : Log) (hs hs' : List MiniHeader) (hash : ℕ)
    → add_log l hs ≡ some hs'
    → logs_held hash hs' ≡ logs_held hash hs ++ logs_in_block hash (l ∷ [])
unfolding add_log
logs_held-add_log l [] hs' hash e = cc
logs_held-add_log l (h ∷ hs) hs' hash e = elim (Bool-cases (h.hash == l.block_hash)) [
  | inl here ↦ ground (arith, append-nil h.logs, append-nil (logs_held hash hs))
  | inr other ↦ elim (Option-cases (add_log l hs)) [
    | inl absent ↦ ground arith
    | inr (rest, added) ↦ ground (arith, append-nil h.logs, logs_held-add_log l hs rest hash added)
  ]
]

-- A header with one log that is put behind the headers, if its block is not among them.
logs_held_new :
    (l : Log) (hs : List MiniHeader) (h : MiniHeader) (hash : ℕ)
    → add_log l hs ≡ none
    → h.hash ≡ l.block_hash
    → h.logs ≡ l ∷ []
    → logs_held hash (hs ++ h ∷ []) ≡ logs_held hash hs ++ logs_in_block hash (l ∷ [])
unfolding add_log
logs_held_new l [] h hash e p q = ground arith
logs_held_new l (x ∷ hs) h hash e p q = elim (Bool-cases (x.hash == l.block_hash)) [
  | inl here ↦ absurd (ground arith)
  | inr other ↦ elim (Option-cases (add_log l hs)) [
    | inr (rest, added) ↦ absurd (ground arith)
    | inl absent ↦ ground (arith, append-nil x.logs, logs_held_new l hs h hash absent p q)
  ]
]

module _ {S W : Type 0} (config : Config S W) where
  open config use {client}

  group_logs_step :
      (ls : List Log) (hs : List MiniHeader) (node : W) (out : List MiniHeader)
      → (group_logs config ls hs node).0 ≡ ok out
      → (hash : ℕ) → logs_held hash out ≡ logs_held hash hs ++ logs_in_block hash ls
  unfolding group_logs
  group_logs_step [] hs node out e hash = ground (arith, append-nil (logs_held hash hs))
  group_logs_step (l ∷ ls) hs node out e hash =
      let joined = logs_in_block-append hash (l ∷ []) ls in
      elim (Option-cases (add_log l hs)) [
        | inr (hs', added) ↦
            let e' = rw (added, group_logs) at e in
            group_logs_step ls hs' node out e' hash
            ∙ ap (λ xs. xs ++ logs_in_block hash ls) (logs_held-add_log l hs hs' hash added)
            ∙ append_assoc (logs_held hash hs) (logs_in_block hash (l ∷ [])) (logs_in_block hash ls)
            ∙ ap (λ xs. logs_held hash hs ++ xs) (sym joined)
        | inl absent ↦ elim (Result-cases (client.header_by_number (some l.block_number) node).0) [
          | inr (x, failed) ↦ let e' = rw (absent, failed, group_logs) at e in cc
          | inl (header, found) ↦
              let node' = (client.header_by_number (some l.block_number) node).1 in
              let fresh = new_header config l header in
              let e' = rw (absent, found, group_logs) at e in
              group_logs_step ls (hs ++ fresh ∷ []) node' out e' hash
              ∙ ap (λ xs. xs ++ logs_in_block hash ls)
                  (logs_held_new l hs fresh hash absent refl refl)
              ∙ append_assoc (logs_held hash hs) (logs_in_block hash (l ∷ []))
                  (logs_in_block hash ls)
              ∙ ap (λ xs. logs_held hash hs ++ xs) (sym joined)
        ]
      ]

  -- If the grouping of logs by block returns headers, then they hold for every block hash exactly
  -- the logs of that block, in the order in which they were given.
  pub group_logs-logs_in_block :
      (ls : List Log) (node : W) (out : List MiniHeader)
      → (group_logs config ls [] node).0 ≡ ok out
      → (hash : ℕ) → logs_held hash out ≡ logs_in_block hash ls
  group_logs-logs_in_block ls node out e hash = group_logs_step ls [] node out e hash
