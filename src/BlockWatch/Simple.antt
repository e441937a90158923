-- ===== src/BlockWatch/Simple.antt =====
-- core/core.go gives the block watcher a `SimpleStack`: the stack of ethereum/simplestack behind the
-- interface, with the laws that the watcher relies on.
use x_mesh.Prelude.{
  ℕ, ◌+◌, ◌<◌, none, some, List, [], ◌∷◌, ◌++◌, ◌≡◌, refl, ◌∙◌, get_last?, drop_last, kept,
  Bool-cases, inl, inr, arith, snoc-cases, IsSuffix,
}
use x_mesh.Errors.{Error, ok}
use x_mesh.MiniHeader.{MiniHeader}
use x_mesh.BlockWatch.Types.{Stack}
use x_mesh.BlockWatch.Laws.{StackLaws}
use x_mesh.SimpleStack.{
  SimpleStack, peek, pop_header, push_header, peek_all, clear, checkpoint, reset, has_number,
}
use x_mesh.SimpleStack.Bounds.{
  IsValid, pop_header-after_pop, pop_header_empty, push_header-after_push, push_header_duplicate,
  push_header-IsValid, clear-IsValid,
}
use x_mesh.SimpleStack.Reset.{
  Since, checkpoint-Since, push_header-Since, pop_header-Since, reset-Since, restored-IsValid,
}

abbrev pub simple_stack : Stack SimpleStack
simple_stack = record {
  pop = pop_header;
  push = push_header;
  peek = peek;
  peek_all = peek_all;
  clear = clear;
  checkpoint = checkpoint;
  reset = reset;
}

-- Methods never change the limit.
limit-pop : (s : SimpleStack) → (pop_header s).1.limit ≡ s.limit
limit-pop s = elim (snoc-cases s.mini_headers) [
  | inl (_, e) ↦ rw (pop_header_empty s e)
  | inr (h, last, e) ↦ rw (pop_header-after_pop h s last)
]

module _ (limit : ℕ) (positive : 0 < limit) where
  abbrev pub ValidHere : SimpleStack → Type 0
  ValidHere s = IsValid s × (s.limit ≡ limit)

  abbrev pub SinceHere : ℕ → List MiniHeader → SimpleStack → Type 0
  SinceHere id base s = Since id base s × (s.limit ≡ limit)

  pop_last : (s : SimpleStack) → (pop_header s).0 ≡ ok (get_last? s.mini_headers)
  pop_last s = elim (snoc-cases s.mini_headers) [
    | inl (_, e) ↦ rw (pop_header_empty s e, e)
    | inr (h, last, e) ↦ rw (pop_header-after_pop h s last, last)
  ]

  pop_contents : (s : SimpleStack) → (pop_header s).1.mini_headers ≡ drop_last s.mini_headers
  pop_contents s = elim (snoc-cases s.mini_headers) [
    | inl (nil, e) ↦ rw (pop_header_empty s e) (rw nil)
    | inr (h, last, e) ↦ rw (pop_header-after_pop h s last)
  ]

  push_contents :
      (h : MiniHeader) (s : SimpleStack)
      → ValidHere s
      → (push_header h s).0 ≡ none
      → (push_header h s).1.mini_headers ≡ kept limit s.mini_headers ++ h ∷ []
  push_contents h s v done = elim (Bool-cases (has_number h.number s.mini_headers)) [
    | inl old ↦ absurd (ground (arith, push_header_duplicate h s old))
    | inr new ↦ rw (push_header-after_push h s v.0.positive new, v.1)
  ]

  push_refused :
      (h : MiniHeader) (s : SimpleStack) (e : Error)
      → ValidHere s
      → (push_header h s).0 ≡ some e
      → (push_header h s).1.mini_headers ≡ s.mini_headers
  push_refused h s e v refused = elim (Bool-cases (has_number h.number s.mini_headers)) [
    | inl old ↦ rw (push_header_duplicate h s old)
    | inr new ↦ absurd (ground (arith, push_header-after_push h s v.0.positive new))
  ]

  limit-push : (h : MiniHeader) (s : SimpleStack) → IsValid s → (push_header h s).1.limit ≡ s.limit
  limit-push h s v = elim (Bool-cases (has_number h.number s.mini_headers)) [
    | inl old ↦ rw (push_header_duplicate h s old)
    | inr new ↦ rw (push_header-after_push h s v.positive new)
  ]

  reset_since :
      (id : ℕ) (base : List MiniHeader) (s : SimpleStack)
      → SinceHere id base s
      → ((reset id s).0 ≡ none)
        × ValidHere (reset id s).1
        × IsSuffix (reset id s).1.mini_headers base
  reset_since id base s t =
      let (hs, done, suffix) = reset-Since s t.0 in
      rw done (refl, (restored-IsValid s hs t.0 suffix, t.1), suffix)

  -- The laws hold of every stack with the limit `limit`.
  unfoldable pub simple_stack_laws : StackLaws simple_stack
  unfolding pop_last pop_contents limit-pop push_contents push_refused limit-push reset_since peek
      peek_all clear checkpoint
  simple_stack_laws = record {
    limit = limit;
    limit_positive = positive;
    contents = λ s. s.mini_headers;
    IsValid = ValidHere;
    Since = SinceHere;
    since_valid = λ id base s t. (t.0.valid, t.1);
    peek_last = λ s v. refl;
    peek_all_contents = λ s v. refl;
    pop_last = λ s v. pop_last s;
    pop_contents = λ s v. pop_contents s;
    pop_since = λ id base s t. (pop_header-Since s t.0, limit-pop s ∙ t.1);
    push_contents = push_contents;
    push_refused = push_refused;
    push_since = λ id base h s t. (push_header-Since h s t.0, limit-push h s t.0.valid ∙ t.1);
    push_valid = λ h s v. (push_header-IsValid h s v.0, limit-push h s v.0 ∙ v.1);
    clear_contents = λ s v. (refl, (clear-IsValid s v.0, v.1));
    checkpoint_since = λ s v.
        let (given, since) = checkpoint-Since s v.0 in
        (s.latest_checkpoint_id + 1, given, (since, v.1), refl);
    reset_since = reset_since;
  }
