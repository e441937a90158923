-- ===== src/SimpleStack/Undo.antt =====
-- simple_stack.go: what the loop of `Reset` does to the headers alone.
use x_mesh.Prelude.{
  ℕ, ◌<◌, ◌≡◌, refl, sym, ◌∙◌, ap, subst, false, none, List, [], ◌∷◌, ◌++◌, append-nil,
  append_assoc, arith, ◌==◌, if◌then◌else◌, Bool-cases, inl, inr, length, length-append, kept,
  IsSuffix, tail, drop_last, snoc-cases, drop_last-append,
}
use x_mesh.Errors.{Result, ok, err, ◌>>=◌, >>=-ok, duplicate_block}
use x_mesh.MiniHeader.{MiniHeader}
use x_mesh.SimpleStack.{SimpleStack, UpdateType, Update, has_number, revert, revert_all}
use x_mesh.SimpleStack.Bounds.{
  Distinct, Distinct-of_append, Distinct-suffix, after_push, after_pop, push_header-after_push,
  pop_header-after_pop, pop_header_empty,
}

-- A round of the loop, and the loop, on the headers.
undo_one : ℕ → Update → List MiniHeader → Result (List MiniHeader)
undo_one limit u hs = elim (u.type) [
  | UpdateType.push ↦ ok (drop_last hs)
  | UpdateType.pop ↦
      if has_number u.mini_header.number hs
      then err (duplicate_block u.mini_header.number)
      else ok (kept limit hs ++ u.mini_header ∷ [])
]

pub undo : ℕ → List Update → List MiniHeader → Result (List MiniHeader)
undo limit [] hs = ok hs
undo limit (u ∷ us) hs = undo_one limit u hs >>= undo limit us

abbrev pub restored : SimpleStack → List MiniHeader → SimpleStack
restored s hs = record s { mini_headers = hs; updates = [] }

-- A round that succeeds on the headers succeeds on the stack.
revert-undo_one :
    (t : UpdateType) (u : Update) (s : SimpleStack) (hs : List MiniHeader)
    → u.type ≡ t
    → 0 < s.limit
    → undo_one s.limit u s.mini_headers ≡ ok hs
    → (us : List Update) × (revert u s ≡ (none, record s { mini_headers = hs; updates = us }))
unfolding undo_one revert
revert-undo_one UpdateType.push u s hs k p e = elim (snoc-cases s.mini_headers) [
  | inl (nil, last) ↦ (s.updates, rw k (rw (pop_header_empty s last) (ground arith)))
  | inr (h, last, _) ↦
      ((after_pop h s).updates, rw k (rw (pop_header-after_pop h s last) (ground arith)))
]
revert-undo_one UpdateType.pop u s hs k p e =
    elim (Bool-cases (has_number u.mini_header.number s.mini_headers)) [
      | inl old ↦ absurd (ground arith)
      | inr new ↦ (
        (after_push u.mini_header s).updates,
        rw k (rw (push_header-after_push u.mini_header s p new) (ground arith)),
      )
    ]

-- The loop restores the headers that `undo` computes.
pub revert_all-undo :
    (us : List Update) (s : SimpleStack) (hs : List MiniHeader)
    → 0 < s.limit
    → undo s.limit us s.mini_headers ≡ ok hs
    → revert_all us s ≡ (none, restored s hs)
unfolding revert_all undo
revert_all-undo [] s hs p e = ground arith
revert_all-undo (u ∷ us) s hs p e =
    let (hs', one, rest) = >>=-ok (undo_one s.limit u s.mini_headers) (undo s.limit us) e in
    let (log, done) = revert-undo_one u.type u s hs' refl p one in
    ground
      (arith, done, revert_all-undo us (record s { mini_headers = hs'; updates = log }) hs p rest)

undo_one-push :
    (limit : ℕ) (h : MiniHeader) (hs : List MiniHeader)
    → undo_one limit (record { type = UpdateType.push; mini_header = h }) (hs ++ h ∷ []) ≡ ok hs
unfolding undo_one
undo_one-push limit h hs = ap ok (drop_last-append hs h)

-- A popped header can be pushed again on any headers below it.
undo_one-pop :
    (limit : ℕ) (h : MiniHeader) (hs : List MiniHeader)
    → has_number h.number hs ≡ false
    → length hs < limit
    → undo_one limit (record { type = UpdateType.pop; mini_header = h }) hs ≡ ok (hs ++ h ∷ [])
unfolding undo_one
undo_one-pop limit h hs new room = ground arith

-- From every suffix of the present headers the recorded updates lead back to a suffix of `base`.
pub record Undoes (limit : ℕ) (base : List MiniHeader) (us : List Update) (hs : List MiniHeader)
    : Type 0 where
  pub at :
      (xs : List MiniHeader)
      → IsSuffix xs hs
      → (ys : List MiniHeader) × (undo limit us xs ≡ ok ys) × IsSuffix ys base

pub Undoes-nil : (limit : ℕ) (hs : List MiniHeader) → Undoes limit hs [] hs
unfolding undo
Undoes-nil limit hs = record { at = λ xs h. (xs, refl, h) }

suffix-tail : (xs ys : List MiniHeader) → IsSuffix xs (tail ys) → IsSuffix xs ys
suffix-tail xs [] h = h
suffix-tail xs (y ∷ ys) (d, e) = (y ∷ d, ap (◌∷◌ y) e)

suffix-kept : (limit : ℕ) (xs ys : List MiniHeader) → IsSuffix xs (kept limit ys) → IsSuffix xs ys
suffix-kept limit xs ys h = elim (Bool-cases (length ys == limit)) [
  | inl full ↦ suffix-tail xs ys (rw full at h)
  | inr room ↦ rw room at h
]

suffix-drop_last :
    (xs ys : List MiniHeader) (y : MiniHeader)
    → IsSuffix xs (ys ++ y ∷ [])
    → IsSuffix (drop_last xs) ys
suffix-drop_last xs ys y (d, e) = elim (snoc-cases xs) [
  | inl (nil, _) ↦ (ys, rw nil (sym (append-nil ys)))
  | inr (z, _, snoc) ↦ (
    d,
    sym (drop_last-append ys y)
        ∙ ap drop_last (e ∙ ap (λ l. d ++ l) snoc ∙ sym (append_assoc d (drop_last xs) (z ∷ [])))
        ∙ drop_last-append (d ++ drop_last xs) z,
  )
]

pub Undoes-push :
    (limit : ℕ) (base : List MiniHeader) (us : List Update) (hs : List MiniHeader) (h : MiniHeader)
    → Undoes limit base us hs
    → Undoes limit base
        (record { type = UpdateType.push; mini_header = h } ∷ us)
        (kept limit hs ++ h ∷ [])
unfolding undo undo_one
Undoes-push limit base us hs h u = record {
  at = λ xs suffix.
      u.at (drop_last xs)
        (suffix-kept limit (drop_last xs) hs (suffix-drop_last xs (kept limit hs) h suffix));
}

pub Undoes-pop :
    (limit : ℕ) (base : List MiniHeader) (us : List Update) (hs : List MiniHeader) (h : MiniHeader)
    → Distinct (hs ++ h ∷ [])
    → length hs < limit
    → Undoes limit base us (hs ++ h ∷ [])
    → Undoes limit base (record { type = UpdateType.pop; mini_header = h } ∷ us) hs
unfolding undo
Undoes-pop limit base us hs h d room u = record {
  at = λ xs below.
      let (dropped, e) = below in
      let e' : hs ++ h ∷ [] ≡ dropped ++ (xs ++ h ∷ []) =
        ap (λ l. l ++ h ∷ []) e ∙ append_assoc dropped xs (h ∷ []) in
      let d' =
        Distinct-of_append xs h (Distinct-suffix dropped (xs ++ h ∷ []) (subst Distinct e' d)) in
      let fits : length xs < limit = omega (arith, ap length e, length-append {0} dropped xs) in
      let (ys, undone, suffix) = u.at (xs ++ h ∷ []) (dropped, e') in
      (ys, rw (undo_one-pop limit h xs d'.1 fits) undone, suffix);
}

-- Undoing the two updates in front of an undo that leads back.
pub undo-push :
    (limit : ℕ) (us : List Update) (hs : List MiniHeader) (h : MiniHeader)
    → undo limit (record { type = UpdateType.push; mini_header = h } ∷ us) (hs ++ h ∷ [])
      ≡ undo limit us hs
unfolding undo
undo-push limit us hs h = rw (undo_one-push limit h hs)

pub undo-pop :
    (limit : ℕ) (us : List Update) (hs : List MiniHeader) (h : MiniHeader)
    → has_number h.number hs ≡ false
    → length hs < limit
    → undo limit (record { type = UpdateType.pop; mini_header = h } ∷ us) hs
      ≡ undo limit us (hs ++ h ∷ [])
unfolding undo
undo-pop limit us hs h new room = rw (undo_one-pop limit h hs new room)

pub undo-nil : (limit : ℕ) (hs : List MiniHeader) → undo limit [] hs ≡ ok hs
unfolding undo
undo-nil limit hs = refl
