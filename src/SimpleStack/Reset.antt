-- ===== src/SimpleStack/Reset.antt =====
-- simple_stack.go: `Checkpoint` and `Reset`.
use x_mesh.Prelude.{
  ℕ, ◌+◌, ◌≤◌, ◌<◌, ◌≡◌, refl, ap, subst, none, List, [], ◌∷◌, reverse, arith, Bool-cases, inl, inr,
  length, length-append, drop_last, snoc-cases, reverse-append, IsSuffix,
}
use x_mesh.Errors.{ok}
use x_mesh.MiniHeader.{MiniHeader}
use x_mesh.SimpleStack.{SimpleStack, pop_header, has_number, push_header, checkpoint, reset}
use x_mesh.SimpleStack.Bounds.{
  IsValid, Distinct, Distinct-suffix, push_header_duplicate, push_header-after_push,
  pop_header-after_pop, pop_header_empty, push_header-IsValid, pop_header-IsValid,
}
use x_mesh.SimpleStack.Undo.{restored, revert_all-undo, Undoes, Undoes-nil, Undoes-push, Undoes-pop}

-- The stack is in the period that began with the checkpoint `id`, when its headers were `base`.
pub record Since (id : ℕ) (base : List MiniHeader) (s : SimpleStack) : Type 0 where
  pub valid : IsValid s
  pub latest : s.latest_checkpoint_id ≡ id
  pub positive : 0 < id
  pub base_bounded : length base ≤ s.limit
  pub base_distinct : Distinct base
  pub undoes : Undoes s.limit base (reverse s.updates) s.mini_headers

pub checkpoint-Since :
    (s : SimpleStack)
    → IsValid s
    → (checkpoint s).0 ≡ ok (s.latest_checkpoint_id + 1)
      × Since (s.latest_checkpoint_id + 1) s.mini_headers (checkpoint s).1
unfolding checkpoint
checkpoint-Since s v = (
  refl,
  record {
    valid = record { positive = v.positive; bounded = v.bounded; distinct = v.distinct };
    latest = refl;
    positive = omega arith;
    base_bounded = v.bounded;
    base_distinct = v.distinct;
    undoes = Undoes-nil s.limit s.mini_headers;
  },
)

module _ {id : ℕ} {base : List MiniHeader} where
  pub push_header-Since :
      (h : MiniHeader) (s : SimpleStack) → Since id base s → Since id base (push_header h s).1
  push_header-Since h s t = elim (Bool-cases (has_number h.number s.mini_headers)) [
    | inl old ↦ rw (push_header_duplicate h s old) t
    | inr new ↦
        let e = push_header-after_push h s t.valid.positive new in
        rw e (record {
          valid = rw e at (push_header-IsValid h s t.valid);
          latest = t.latest;
          positive = t.positive;
          base_bounded = t.base_bounded;
          base_distinct = t.base_distinct;
          undoes =
              rw reverse-append
                (Undoes-push s.limit base (reverse s.updates) s.mini_headers h t.undoes);
        })
  ]

  pub pop_header-Since : (s : SimpleStack) → Since id base s → Since id base (pop_header s).1
  pop_header-Since s t = elim (snoc-cases s.mini_headers) [
    | inl (_, last) ↦ rw (pop_header_empty s last) t
    | inr (h, last, e) ↦
        let e' = pop_header-after_pop h s last in
        rw e' (record {
          valid = rw e' at (pop_header-IsValid s t.valid);
          latest = t.latest;
          positive = t.positive;
          base_bounded = t.base_bounded;
          base_distinct = t.base_distinct;
          undoes = rw reverse-append (
              Undoes-pop s.limit base (reverse s.updates) (drop_last s.mini_headers) h
                (subst Distinct e t.valid.distinct)
                (omega (
                  arith,
                  ap length e,
                  length-append {0} (drop_last s.mini_headers) (h ∷ []),
                  t.valid,
                ))
                (subst (λ l. Undoes s.limit base (reverse s.updates) l) e t.undoes));
        })
  ]

  -- `Reset` succeeds, and leaves a suffix of the headers at the checkpoint.
  pub reset-Since :
      (s : SimpleStack)
      → Since id base s
      → (hs : List MiniHeader) × (reset id s ≡ (none, restored s hs)) × IsSuffix hs base
  unfolding reset
  reset-Since s t =
      let (hs, undone, suffix) = t.undoes.at s.mini_headers ([], refl) in
      (
        hs,
        ground (
          arith,
          t.positive,
          t.latest,
          revert_all-undo (reverse s.updates) s hs t.valid.positive undone,
        ),
        suffix,
      )

  pub restored-IsValid :
      (s : SimpleStack) (hs : List MiniHeader)
      → Since id base s
      → IsSuffix hs base
      → IsValid (restored s hs)
  restored-IsValid s hs t (dropped, e) = record {
    positive = t.valid.positive;
    bounded = omega (arith, ap length e, length-append {0} dropped hs, t.base_bounded);
    distinct = Distinct-suffix dropped hs (subst Distinct e t.base_distinct);
  }
