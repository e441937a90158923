-- ===== src/SimpleStack/Bounds.antt =====
-- simple_stack.go: what holds of the headers between two calls.
use x_mesh.Prelude.{
  ℕ, ◌≤◌, ◌<◌, ◌-◌, ◌≡◌, refl, ap, subst, true, false, none, some, List, [], ◌∷◌, ◌++◌, arith, ◌==◌,
  Bool-cases, inl, inr, kept, length, length-append, tail, get_last?, drop_last, snoc-cases,
}
use x_mesh.Errors.{ok, duplicate_block}
use x_mesh.MiniHeader.{MiniHeader}
use x_mesh.SimpleStack.{
  SimpleStack, UpdateType, pop_header, popped, has_number, make_room, push_header, clear,
}

-- No two headers have one block number.
abbrev pub Distinct : List MiniHeader → Type 0
Distinct [] = Unit
Distinct (h ∷ hs) = (has_number h.number hs ≡ false) × Distinct hs

pub record IsValid (s : SimpleStack) : Type 0 where
  pub positive : 0 < s.limit
  pub bounded : length s.mini_headers ≤ s.limit
  pub distinct : Distinct s.mini_headers

pub has_number-append :
    (n : ℕ) (xs : List MiniHeader) (h : MiniHeader)
    → has_number n xs ≡ false
    → (h.number == n) ≡ false
    → has_number n (xs ++ h ∷ []) ≡ false
unfolding has_number
has_number-append n [] h p q = rw q
has_number-append n (x ∷ xs) h p q = ground (arith, has_number-append n xs h)

pub Distinct-append :
    (xs : List MiniHeader) (h : MiniHeader)
    → Distinct xs
    → has_number h.number xs ≡ false
    → Distinct (xs ++ h ∷ [])
unfolding has_number
Distinct-append [] h d p = (refl, tt)
Distinct-append (x ∷ xs) h d p =
    (has_number-append x.number xs h d.0 (ground arith), Distinct-append xs h d.1 (ground arith))

has_number_of_append :
    (n : ℕ) (xs : List MiniHeader) (h : MiniHeader)
    → has_number n (xs ++ h ∷ []) ≡ false
    → (has_number n xs ≡ false) × ((h.number == n) ≡ false)
unfolding has_number
has_number_of_append n [] h p = ground arith
has_number_of_append n (x ∷ xs) h p = ground (arith, has_number_of_append n xs h)

pub Distinct-of_append :
    (xs : List MiniHeader) (h : MiniHeader)
    → Distinct (xs ++ h ∷ [])
    → Distinct xs × (has_number h.number xs ≡ false)
unfolding has_number
Distinct-of_append [] h d = (tt, refl)
Distinct-of_append (x ∷ xs) h d =
    ground (arith, Distinct-of_append xs h d.1, has_number_of_append x.number xs h d.0)

pub Distinct-suffix : (xs ys : List MiniHeader) → Distinct (xs ++ ys) → Distinct ys
Distinct-suffix [] ys d = d
Distinct-suffix (x ∷ xs) ys d = Distinct-suffix xs ys d.1

abbrev pub after_push : MiniHeader → SimpleStack → SimpleStack
after_push h s = record s {
  mini_headers = kept s.limit s.mini_headers ++ h ∷ [];
  updates = s.updates ++ record { type = UpdateType.push; mini_header = h } ∷ [];
}

abbrev pub after_pop : MiniHeader → SimpleStack → SimpleStack
after_pop h s = record s {
  mini_headers = drop_last s.mini_headers;
  updates = s.updates ++ record { type = UpdateType.pop; mini_header = h } ∷ [];
}

make_room-kept :
    (limit : ℕ) (hs : List MiniHeader) → 0 < limit → make_room limit hs ≡ ok (kept limit hs)
unfolding make_room
make_room-kept limit [] p = ground arith
make_room-kept limit (h ∷ hs) p = ground arith

pub push_header-after_push :
    (h : MiniHeader) (s : SimpleStack)
    → 0 < s.limit
    → has_number h.number s.mini_headers ≡ false
    → push_header h s ≡ (none, after_push h s)
unfolding push_header
push_header-after_push h s p q = rw (q, make_room-kept s.limit s.mini_headers p)

pub push_header_duplicate :
    (h : MiniHeader) (s : SimpleStack)
    → has_number h.number s.mini_headers ≡ true
    → push_header h s ≡ (some (duplicate_block h.number), s)
unfolding push_header
push_header_duplicate h s q = rw q

pub pop_header-after_pop :
    (h : MiniHeader) (s : SimpleStack)
    → get_last? s.mini_headers ≡ some h
    → pop_header s ≡ (ok (some h), after_pop h s)
unfolding pop_header
pop_header-after_pop h s q = rw (q, popped)

pub pop_header_empty :
    (s : SimpleStack) → get_last? s.mini_headers ≡ none → pop_header s ≡ (ok none, s)
unfolding pop_header
pop_header_empty s q = rw (q, popped)

has_number-tail :
    (n : ℕ) (hs : List MiniHeader) → has_number n hs ≡ false → has_number n (tail hs) ≡ false
unfolding has_number
has_number-tail n [] h = h
has_number-tail n (x ∷ hs) h = ground arith

Distinct-tail : (hs : List MiniHeader) → Distinct hs → Distinct (tail hs)
Distinct-tail [] d = d
Distinct-tail (x ∷ hs) d = d.1

length-tail : (hs : List MiniHeader) → length (tail hs) ≡ length hs - 1
length-tail [] = omega arith
length-tail (x ∷ hs) = omega arith

after_push-IsValid :
    (h : MiniHeader) (s : SimpleStack)
    → has_number h.number s.mini_headers ≡ false
    → IsValid s
    → IsValid (after_push h s)
after_push-IsValid h s q v = elim (Bool-cases (length s.mini_headers == s.limit)) [
  | inl full ↦ record {
    positive = v.positive;
    bounded = rw full (
        ground (
          arith,
          length-append (tail s.mini_headers) (h ∷ []),
          length-tail s.mini_headers,
          v.positive,
        ));
    distinct = rw full (
        Distinct-append (tail s.mini_headers) h (Distinct-tail _ v.distinct)
          (has_number-tail h.number s.mini_headers q));
  }
  | inr room ↦ record {
    positive = v.positive;
    bounded = rw room (ground (arith, length-append s.mini_headers (h ∷ []), v.bounded));
    distinct = rw room (Distinct-append s.mini_headers h v.distinct q);
  }
]

-- From a valid stack a push leaves a valid one: the limit is positive, there are at most as many
-- headers as the limit, and no two of them have one block number.
pub push_header-IsValid :
    (h : MiniHeader) (s : SimpleStack) → IsValid s → IsValid (push_header h s).1
push_header-IsValid h s v = elim (Bool-cases (has_number h.number s.mini_headers)) [
  | inl q ↦ rw (push_header_duplicate h s q) v
  | inr q ↦ rw (push_header-after_push h s v.positive q) (after_push-IsValid h s q v)
]

after_pop-IsValid :
    (h : MiniHeader) (s : SimpleStack)
    → s.mini_headers ≡ drop_last s.mini_headers ++ h ∷ []
    → IsValid s
    → IsValid (after_pop h s)
after_pop-IsValid h s e v = record {
  positive = v.positive;
  bounded = omega (arith, ap length e, length-append {0} (drop_last s.mini_headers) (h ∷ []), v);
  distinct = (Distinct-of_append (drop_last s.mini_headers) h (subst Distinct e v.distinct)).0;
}

pub pop_header-IsValid : (s : SimpleStack) → IsValid s → IsValid (pop_header s).1
pop_header-IsValid s v = elim (snoc-cases s.mini_headers) [
  | inl (_, e) ↦ rw (pop_header_empty s e) v
  | inr (h, last, e) ↦ rw (pop_header-after_pop h s last) (after_pop-IsValid h s e v)
]

pub clear-IsValid : (s : SimpleStack) → IsValid s → IsValid (clear s).1
unfolding clear
clear-IsValid s v = record { positive = v.positive; bounded = omega arith; distinct = tt }
