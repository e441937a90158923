-- ===== src/StringSet/Membership.antt =====
-- Membership in the sets of strings.
use x_mesh.Prelude.{
  ◌≡◌, ◌≢◌, refl, ap, ◌∙◌, inl, inr, Bool, true, false, ◌||◌, List, [], ◌∷◌, ◌++◌, Bool-cases,
}
use x_mesh.Db.Escape.{Bytes}
use x_mesh.Db.Ldb.{same_bytes, same_bytes_refl, same_bytes→eq}
use x_mesh.StringSet.{contains, add_to_set, remove_from_set}

contains-append :
    (xs : List Bytes) (y id : Bytes)
    → contains (xs ++ y ∷ []) id ≡ (contains xs id || same_bytes y id)
unfolding contains
contains-append [] y id = or_false (same_bytes y id)
  where
    or_false : (b : Bool) → (b || false) ≡ b
    or_false true = refl
    or_false false = refl
contains-append (x ∷ xs) y id =
    ap (λ b. same_bytes x id || b) (contains-append xs y id)
    ∙ or_assoc (same_bytes x id) (contains xs id) (same_bytes y id)
  where
    or_assoc : (a b c : Bool) → (a || (b || c)) ≡ (a || b || c)
    or_assoc true b c = refl
    or_assoc false b c = refl

pub contains-add_to_set : (id : Bytes) (ids : List Bytes) → contains (add_to_set id ids) id ≡ true
unfolding add_to_set
contains-add_to_set id ids = elim (Bool-cases (contains ids id)) [
  | inl e ↦ rw (e, add_to_set) e
  | inr e ↦ rw (e, add_to_set) (contains-append ids id id ∙ last (contains ids id))
]
  where
    last : (b : Bool) → (b || same_bytes id id) ≡ true
    last true = refl
    last false = same_bytes_refl id

differ : (x y : Bytes) → x ≢ y → same_bytes x y ≡ false
differ x y h = elim (Bool-cases (same_bytes x y)) [
  | inl e ↦ absurd (h (same_bytes→eq x y e))
  | inr e ↦ e
]

pub contains-add_to_set_other :
    (id other : Bytes) (ids : List Bytes)
    → id ≢ other
    → contains (add_to_set id ids) other ≡ contains ids other
unfolding add_to_set
contains-add_to_set_other id other ids h = elim (Bool-cases (contains ids id)) [
  | inl e ↦ rw (e, add_to_set) refl
  | inr e ↦
      rw (e, add_to_set)
        (contains-append ids id other
          ∙ ap (λ b. contains ids other || b) (differ id other h)
          ∙ or_false (contains ids other))
]
  where
    or_false : (b : Bool) → (b || false) ≡ b
    or_false true = refl
    or_false false = refl

pub contains-remove_from_set :
    (id : Bytes) (ids : List Bytes) → contains (remove_from_set id ids) id ≡ false
unfolding contains remove_from_set
contains-remove_from_set id [] = refl
contains-remove_from_set id (x ∷ xs) = elim (Bool-cases (same_bytes x id)) [
  | inl e ↦ rw e (contains-remove_from_set id xs)
  | inr e ↦ rw (e, e) (contains-remove_from_set id xs)
]

pub contains-remove_from_set_other :
    (id other : Bytes) (ids : List Bytes)
    → id ≢ other
    → contains (remove_from_set id ids) other ≡ contains ids other
unfolding contains remove_from_set
contains-remove_from_set_other id other [] h = refl
contains-remove_from_set_other id other (x ∷ xs) h = elim (Bool-cases (same_bytes x id)) [
  | inl e ↦
      let same = same_bytes→eq x id e in
      let no = ap (λ y. same_bytes y other) same ∙ differ id other h in
      rw (e, no) (contains-remove_from_set_other id other xs h)
  | inr e ↦ rw e (ap (λ b. same_bytes x other || b) (contains-remove_from_set_other id other xs h))
]

pub contains-remove_from_set_absent :
    (id other : Bytes) (ids : List Bytes)
    → contains ids other ≡ false
    → contains (remove_from_set id ids) other ≡ false
unfolding contains remove_from_set
contains-remove_from_set_absent id other [] h = refl
contains-remove_from_set_absent id other (x ∷ xs) h = elim (Bool-cases (same_bytes x other)) [
  | inl f ↦ let bad = rw f at h in cc
  | inr f ↦
      let h' = rw f at h in
      elim (Bool-cases (same_bytes x id)) [
        | inl e ↦ rw e (contains-remove_from_set_absent id other xs h')
        | inr e ↦ rw (e, f) (contains-remove_from_set_absent id other xs h')
      ]
]

pub contains-add_to_set_kept :
    (id other : Bytes) (ids : List Bytes)
    → contains ids other ≡ true
    → contains (add_to_set id ids) other ≡ true
unfolding add_to_set
contains-add_to_set_kept id other ids h = elim (Bool-cases (contains ids id)) [
  | inl e ↦ rw (e, add_to_set) h
  | inr e ↦ rw (e, add_to_set) (contains-append ids id other ∙ rw h refl)
]
