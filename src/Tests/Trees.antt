-- ===== src/Tests/Trees.antt =====
-- A map with keys in order as a list of entries, of which the first counts, and runs of the watcher
-- of expiration times on it.
use x_mesh.Prelude.{
  ℕ, ◌<◌, ◌≤◌, ◌≡◌, refl, ap, sym, ◌∙◌, inl, inr, true, false, Option, none, some, some-injective,
  List, [], ◌∷◌, ◌==◌, ==_iff, leb, Bool-cases, Option-cases, length, if◌then◌else◌, arith,
}
use x_mesh.Db.Escape.{Bytes}
use x_mesh.ExpirationWatch.{RbTree, RbTreeLaws, ExpiredItem, prune}
use x_mesh.ExpirationWatch.Calls.{WatchCall, adds, removes, set_after, run_calls, run_calls-watched}
use x_mesh.ExpirationWatch.Watched.{ids_at, is_past, watched, prune-watched}

abbrev pub Entries : Type 0
Entries = List (ℕ × List Bytes)

abbrev pub get_entry : Entries → ℕ → Option (List Bytes)
get_entry [] key = none
get_entry ((k, ids) ∷ es) key = if k == key then some ids else get_entry es key

abbrev pub delete_entry : ℕ → Entries → Entries
delete_entry key [] = []
delete_entry key ((k, ids) ∷ es) =
    let rest = delete_entry key es in if k == key then rest else (k, ids) ∷ rest

abbrev pub lesser : ℕ → List Bytes → Option (ℕ × List Bytes) → Option (ℕ × List Bytes)
lesser k ids none = some (k, ids)
lesser k ids (some (k', ids')) = if leb k k' then some (k, ids) else some (k', ids')

abbrev pub least : Entries → Option (ℕ × List Bytes)
least [] = none
least ((k, ids) ∷ es) = lesser k ids (least es)

abbrev pub entries_tree : RbTree Entries
entries_tree = record {
  get = get_entry;
  insert = λ k ids es. (k, ids) ∷ es;
  delete = delete_entry;
  min_entry = least;
}

pub get-delete_entry :
    (es : Entries) (k key : ℕ)
    → get_entry (delete_entry k es) key ≡ (if k == key then none else get_entry es key)
get-delete_entry [] k key = elim (Bool-cases (k == key)) [ inl e ↦ rw e refl | inr e ↦ rw e refl ]
get-delete_entry ((x, ids) ∷ es) k key = elim (Bool-cases (x == k)) [
  | inl e ↦ elim (Bool-cases (k == key)) [
    | inl f ↦ rw e (get-delete_entry es k key ∙ rw f refl)
    | inr f ↦ let g = other x k key e f in rw (e, g) (get-delete_entry es k key)
  ]
  | inr e ↦ elim (Bool-cases (x == key)) [
    | inl f ↦ let g = other' x k key e f in rw (e, f, g) refl
    | inr f ↦ rw (e, f) (get-delete_entry es k key)
  ]
]
  where
    other : (x k key : ℕ) → (x == k) ≡ true → (k == key) ≡ false → (x == key) ≡ false
    other x k key e f = ground arith

    other' : (x k key : ℕ) → (x == k) ≡ false → (x == key) ≡ true → (k == key) ≡ false
    other' x k key e f = ground arith

length-delete_entry : (es : Entries) (k : ℕ) → length (delete_entry k es) ≤ length es
length-delete_entry [] k = omega arith
length-delete_entry ((x, ids) ∷ es) k = elim (Bool-cases (x == k)) [
  | inl e ↦ rw e (omega (arith, length-delete_entry es k))
  | inr e ↦ rw e (omega (arith, length-delete_entry es k))
]

pub length-delete_stored :
    (es : Entries) (k : ℕ) (ids : List Bytes)
    → get_entry es k ≡ some ids
    → length (delete_entry k es) < length es
length-delete_stored [] k ids h = cc
length-delete_stored ((x, xs) ∷ es) k ids h = elim (Bool-cases (x == k)) [
  | inl e ↦ rw e (omega (arith, length-delete_entry es k))
  | inr e ↦ let h' = rw e at h in rw e (omega (arith, length-delete_stored es k ids h'))
]

pub least-none : (es : Entries) → least es ≡ none → (key : ℕ) → get_entry es key ≡ none
least-none [] h key = refl
least-none ((k, ids) ∷ es) h key = elim (Option-cases (least es)) [
  | inl e ↦ let bad = rw e at h in cc
  | inr ((k', ids'), e) ↦ elim (Bool-cases (leb k k')) [
    | inl l ↦ let bad = rw (e, l) at h in cc
    | inr l ↦ let bad = rw (e, l) at h in cc
  ]
]

-- What the head of a list is good for, and how it is passed over.
at_head :
    (x k : ℕ) (xs ids : List Bytes) (es : Entries)
    → lesser x xs none ≡ some (k, ids)
    → get_entry ((x, xs) ∷ es) k ≡ some ids
at_head x k xs ids es e =
    rw ((==_iff x k).1 (ap (λ p. p.0) (some-injective _ _ e)))
      (ap some (ap (λ p. p.1) (some-injective _ _ e)))

past_head :
    (x key : ℕ) (xs : List Bytes) (es : Entries)
    → (x == key) ≡ false
    → get_entry ((x, xs) ∷ es) key ≡ get_entry es key
past_head x key xs es e = rw e refl

below : (x k key : ℕ) → x ≡ k → key < k → (x == key) ≡ false
below x k key e l = ground arith

pub least-some :
    (es : Entries) (k : ℕ) (ids : List Bytes)
    → least es ≡ some (k, ids)
    → (get_entry es k ≡ some ids) × ((key : ℕ) → key < k → get_entry es key ≡ none)
least-some [] k ids h = cc
least-some ((x, xs) ∷ es) k ids h = elim (Option-cases (least es)) [
  | inl e ↦
      let given = (sym (ap (lesser x xs) e) ∙ h) in
      let pair = some-injective _ _ given in
      (
        at_head x k xs ids es given,
        λ key l. past_head x key xs es (below x k key (ap (λ p. p.0) pair) l) ∙ least-none es e key,
      )
  | inr ((m, ms), e) ↦
      let (stored, none_below) = least-some es m ms e in
      elim (Bool-cases (leb x m)) [
        | inl l ↦
            let given =
              (sym (ap (lesser x xs) e ∙ ap (λ b. if b then some (x, xs) else some (m, ms)) l)
                ∙ h) in
            let pair = some-injective _ _ given in
            let same = ap (λ p. p.0) pair in
            (
              at_head x k xs ids es given,
              λ key less.
                  past_head x key xs es (below x k key same less)
                  ∙ none_below key (at_most x m k key l same less),
            )
        | inr l ↦
            let given =
              (sym (ap (lesser x xs) e ∙ ap (λ b. if b then some (x, xs) else some (m, ms)) l)
                ∙ h) in
            let pair = some-injective _ _ given in
            let same = ap (λ p. p.0) pair in
            (
              past_head x k xs es (greater x m k k l same (omega arith))
                  ∙ ap (get_entry es) (sym same)
                  ∙ stored
                  ∙ ap (λ p. some (p.1)) pair,
              λ key less.
                  past_head x key xs es (greater x m k key l same (omega (arith, less)))
                  ∙ none_below key (omega (arith, less, same)),
            )
      ]
]
  where
    at_most : (x m k key : ℕ) → leb x m ≡ true → x ≡ k → key < k → key < m
    at_most x m k key l same less = ground arith

    greater : (x m k key : ℕ) → leb x m ≡ false → m ≡ k → key ≤ k → (x == key) ≡ false
    greater x m k key l same less = ground arith

abbrev pub entries_laws : RbTreeLaws entries_tree
entries_laws = record {
  size = λ es. length es;
  get-insert = λ es k key ids. refl;
  get-delete = λ es k key. get-delete_entry es k key;
  min-none = λ es h key. least-none es h key;
  min-some = λ es k ids h. least-some es k ids h;
  size-delete = λ es k ids h. length-delete_stored es k ids h;
}

-- Two orders expire in second 5, and one in second 9.
abbrev two_seconds : Entries
two_seconds = (9, (1 ∷ []) ∷ []) ∷ (5, (2 ∷ []) ∷ (3 ∷ []) ∷ []) ∷ []

prune-watched_example :
    (pruned : List ExpiredItem) × (t' : Entries) × (prune entries_tree 3 7000000000 two_seconds
      ≡ some (pruned, t'))
    × ((key : ℕ)
        → (ids_at key pruned ≡ (
            if is_past 7000000000 key
            then watched entries_tree entries_laws two_seconds key
            else []))
          × (watched entries_tree entries_laws t' key ≡ (
              if is_past 7000000000 key
              then []
              else watched entries_tree entries_laws two_seconds key)))
prune-watched_example =
    prune-watched entries_tree entries_laws 3 7000000000 two_seconds (omega arith)

-- An ID is added and another removed, both in second 5.
abbrev some_calls : List WatchCall
some_calls = adds 5000000001 (4 ∷ []) ∷ removes 5000000001 (2 ∷ []) ∷ []

run_calls-watched_example :
    watched entries_tree entries_laws (run_calls entries_tree some_calls two_seconds) 5
    ≡ set_after 5 some_calls (watched entries_tree entries_laws two_seconds 5)
run_calls-watched_example = run_calls-watched entries_tree entries_laws some_calls two_seconds 5
