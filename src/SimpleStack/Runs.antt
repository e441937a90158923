-- ===== src/SimpleStack/Runs.antt =====
-- simple_stack.go: runs of `Push` and `Pop` between `Checkpoint` and `Reset`.
use x_mesh.Prelude.{
  ℕ, ◌+◌, ◌<◌, ◌≡◌, ◌∙◌, ap, subst, true, false, none, List, [], ◌∷◌, reverse, arith, ◌==◌,
  Bool-cases, inl, inr, length, length-append, tail, drop_last, snoc-cases, reverse-append,
  IsSuffix,
}
use x_mesh.Errors.{ok}
use x_mesh.MiniHeader.{MiniHeader}
use x_mesh.SimpleStack.{
  SimpleStack, UpdateType, pop_header, has_number, push_header, checkpoint, reset,
}
use x_mesh.SimpleStack.Bounds.{
  IsValid, Distinct, Distinct-of_append, after_push, push_header_duplicate, push_header-after_push,
  pop_header-after_pop, pop_header_empty, push_header-IsValid, pop_header-IsValid,
}
use x_mesh.SimpleStack.Reset.{
  Since, checkpoint-Since, push_header-Since, pop_header-Since, reset-Since,
}
use x_mesh.SimpleStack.Undo.{undo, undo-push, undo-pop, undo-nil, restored, revert_all-undo}

pub data Call : Type 0 where
  pop : Call
  push : MiniHeader → Call

-- The stack after one call. A push that is refused leaves it as it was.
unfoldable pub call : Call → SimpleStack → SimpleStack
call pop s = (pop_header s).1
call (push h) s = (push_header h s).1

unfoldable pub calls : List Call → SimpleStack → SimpleStack
calls [] s = s
calls (c ∷ cs) s = calls cs (call c s)

-- No push of the run finds the stack at its limit.
abbrev pub HasRoom : List Call → SimpleStack → Type 0
HasRoom [] s = Unit
HasRoom (pop ∷ cs) s = HasRoom cs (call pop s)
HasRoom (push h ∷ cs) s = (length s.mini_headers < s.limit) × HasRoom cs (call (push h) s)

calls-Since :
    {id : ℕ} {base : List MiniHeader} (cs : List Call) (s : SimpleStack)
    → Since id base s
    → Since id base (calls cs s)
unfolding calls call
calls-Since [] s t = t
calls-Since (pop ∷ cs) s t = calls-Since cs (call pop s) (pop_header-Since s t)
calls-Since (push h ∷ cs) s t = calls-Since cs (call (push h) s) (push_header-Since h s t)

-- The recorded updates lead back to exactly `base`.
abbrev Exact : List MiniHeader → SimpleStack → Type 0
Exact base s = undo s.limit (reverse s.updates) s.mini_headers ≡ ok base

push_header-Exact :
    {base : List MiniHeader} (h : MiniHeader) (s : SimpleStack)
    → IsValid s
    → length s.mini_headers < s.limit
    → Exact base s
    → Exact base (push_header h s).1
push_header-Exact h s v room x = elim (Bool-cases (has_number h.number s.mini_headers)) [
  | inl old ↦ rw (push_header_duplicate h s old) x
  | inr new ↦
      let short : (length s.mini_headers == s.limit) ≡ false = ground arith in
      rw (push_header-after_push h s v.positive new)
        (rw (short, reverse-append) (undo-push s.limit (reverse s.updates) s.mini_headers h ∙ x))
]

pop_header-Exact :
    {base : List MiniHeader} (s : SimpleStack)
    → IsValid s
    → Exact base s
    → Exact base (pop_header s).1
pop_header-Exact {base} s v x = elim (snoc-cases s.mini_headers) [
  | inl (_, last) ↦ rw (pop_header_empty s last) x
  | inr (h, last, e) ↦
      let below = drop_last s.mini_headers in
      let fits : length below < s.limit =
        omega (arith, ap length e, length-append {0} below (h ∷ []), v) in
      rw (pop_header-after_pop h s last) (
        rw reverse-append (
          undo-pop s.limit (reverse s.updates) below h
            (Distinct-of_append below h (subst Distinct e v.distinct)).1 fits
          ∙ subst (λ l. undo s.limit (reverse s.updates) l ≡ ok base) e x))
]

calls-Exact :
    {base : List MiniHeader} (cs : List Call) (s : SimpleStack)
    → IsValid s
    → HasRoom cs s
    → Exact base s
    → Exact base (calls cs s)
unfolding calls call
calls-Exact [] s v r x = x
calls-Exact (pop ∷ cs) s v r x =
    calls-Exact cs (call pop s) (pop_header-IsValid s v) r (pop_header-Exact s v x)
calls-Exact (push h ∷ cs) s v r x =
    calls-Exact cs (call (push h) s) (push_header-IsValid h s v) r.1 (push_header-Exact h s v r.0 x)

module _ (s : SimpleStack) (cs : List Call) (valid : IsValid s) where
  -- From a valid stack, Checkpoint hands out an identifier, and after any pushes and pops Reset
  -- with that identifier succeeds, empties the list of updates and leaves the headers of the
  -- checkpoint or their newest part.
  pub reset-calls :
      (id : ℕ) × ((checkpoint s).0 ≡ ok id)
      × (hs : List MiniHeader) × (reset id (calls cs (checkpoint s).1)
          ≡ (none, restored (calls cs (checkpoint s).1) hs))
      × IsSuffix hs s.mini_headers
  reset-calls =
      let (given, since) = checkpoint-Since s valid in
      let (hs, done, suffix) =
        reset-Since (calls cs (checkpoint s).1) (calls-Since cs (checkpoint s).1 since) in
      (s.latest_checkpoint_id + 1, given, hs, done, suffix)

  -- From a valid stack, if no push of a run of pushes and pops meets the limit, then Reset after
  -- the run restores exactly the headers of the checkpoint.
  pub reset-calls_exact :
      HasRoom cs (checkpoint s).1
      → reset (s.latest_checkpoint_id + 1) (calls cs (checkpoint s).1)
        ≡ (none, restored (calls cs (checkpoint s).1) s.mini_headers)
  unfolding reset checkpoint
  reset-calls_exact room =
      let (given, since) = checkpoint-Since s valid in
      let start = (checkpoint s).1 in
      let now = calls-Since cs start since in
      let exact = calls-Exact cs start since.valid room (undo-nil s.limit s.mini_headers) in
      ground (
        arith,
        now.latest,
        revert_all-undo (reverse (calls cs start).updates) (calls cs start) s.mini_headers
            now.valid.positive exact,
      )

-- On a valid stack that is at its limit, Reset after the push of a header with a new block number
-- leaves all headers of the checkpoint but the oldest: the header that the push evicted is lost.
pub reset-push_full :
    (s : SimpleStack) (h : MiniHeader)
    → IsValid s
    → length s.mini_headers ≡ s.limit
    → has_number h.number s.mini_headers ≡ false
    → reset (s.latest_checkpoint_id + 1) (push_header h (checkpoint s).1).1
      ≡ (none, restored (push_header h (checkpoint s).1).1 (tail s.mini_headers))
unfolding checkpoint reset
reset-push_full s h v full new =
    let start = (checkpoint s).1 in
    let at_limit : (length s.mini_headers == s.limit) ≡ true = ground arith in
    rw (push_header-after_push h start v.positive new) (
      ground (
        arith,
        revert_all-undo (record { type = UpdateType.push; mini_header = h } ∷ [])
            (after_push h start) (tail s.mini_headers) v.positive
            (rw at_limit (
              undo-push s.limit [] (tail s.mini_headers) h
              ∙ undo-nil s.limit (tail s.mini_headers))),
      ))
