-- ===== src/Db/Escape.antt =====
-- db/escape.go: the escaping of the parts of a key. A byte is a number.
use x_mesh.Prelude.{
  ℕ, ◌≡◌, ◌≢◌, refl, ap, sym, ◌∙◌, ◌⊎◌, inl, inr, true, false, List, [], ◌∷◌, ◌++◌, ◌==◌,
  if◌then◌else◌, ==_iff, Bool-cases, All, All-append, arith,
}
use x_mesh.Errors.{other, Result, ok, err, ◌>>=◌}

abbrev pub Bytes : Type 0
Bytes = List ℕ

-- ':', '\' and 'c'
abbrev pub colon : ℕ
colon = 58

abbrev pub backslash : ℕ
backslash = 92

abbrev pub letter_c : ℕ
letter_c = 99

-- one round of the loop of `escape`
unfoldable pub escape_byte : ℕ → Bytes
escape_byte b =
    if b == colon
    then backslash ∷ letter_c ∷ []
    else if b == backslash
    then backslash ∷ b ∷ []
    else b ∷ []

unfoldable pub escape : Bytes → Bytes
escape [] = []
escape (b ∷ bs) = escape_byte b ++ escape bs

-- what `unescape` appends for the byte that follows a backslash
unfoldable pub unescape_next : ℕ → ℕ
unescape_next next = if next == letter_c then colon else next

-- A backslash at the end is the reader's `io.EOF`.
unfoldable pub unescape : Bytes → Result Bytes
unescape [] = ok []
unescape (b ∷ []) = if b == backslash then err (other "EOF") else ok (b ∷ [])
unescape (b ∷ next ∷ bs) = elim (b == backslash) [
  | true ↦ unescape bs >>= λ rest. ok (unescape_next next ∷ rest)
  | false ↦ unescape (next ∷ bs) >>= λ rest. ok (b ∷ rest)
]

-- A byte other than a backslash stands for itself, whatever follows it.
unescape-plain :
    (b : ℕ) (bs : Bytes)
    → (b == backslash) ≡ false
    → unescape (b ∷ bs) ≡ (unescape bs >>= λ rest. ok (b ∷ rest))
unfolding unescape
unescape-plain b [] h = rw h
unescape-plain b (n ∷ bs) h = rw (h, unescape) refl

escape_byte-cases :
    (b : ℕ)
    → ((b ≡ colon) × (escape_byte b ≡ backslash ∷ letter_c ∷ []))
      ⊎ ((b ≡ backslash) × (escape_byte b ≡ backslash ∷ backslash ∷ []))
      ⊎ ((b ≢ colon) × ((b == backslash) ≡ false) × (escape_byte b ≡ b ∷ []))
unfolding escape_byte
escape_byte-cases b = elim (Bool-cases (b == colon)) [
  | inl c ↦ inl ((==_iff b colon).0 c, rw c)
  | inr nc ↦ elim (Bool-cases (b == backslash)) [
    | inl s ↦ let e = (==_iff b backslash).0 s in inr (inl (e, rw (nc, s, e) refl))
    | inr ns ↦ inr (inr ((λ e. ground arith), ns, rw (nc, ns) refl))
  ]
]

-- Unescaping what was escaped gives the bytes back.
pub unescape-escape : (value : Bytes) → unescape (escape value) ≡ ok value
unfolding unescape escape unescape_next
unescape-escape [] = refl
unescape-escape (b ∷ bs) = elim (escape_byte-cases b) [
  | inl (b_eq, e) ↦ rw (e, b_eq, unescape-escape bs) refl
  | inr (inl (b_eq, e)) ↦ rw (e, b_eq, unescape-escape bs) refl
  | inr (inr (_, ns, e)) ↦ rw (e, unescape-plain b (escape bs) ns, unescape-escape bs) refl
]

-- Escaped bytes hold no colon.
pub escape-no_colon : (value : Bytes) → All (λ b. b ≢ colon) (escape value)
unfolding escape
escape-no_colon [] = tt
escape-no_colon (b ∷ bs) =
    All-append (λ x. x ≢ colon) (escape_byte b) (escape bs)
      (elim (escape_byte-cases b) [
        | inl (_, e) ↦ rw e ((λ h. omega (arith, h)), ((λ h. omega (arith, h)), tt))
        | inr (inl (_, e)) ↦ rw e ((λ h. omega (arith, h)), ((λ h. omega (arith, h)), tt))
        | inr (inr (nc, _, e)) ↦ rw e (nc, tt)
      ])
      (escape-no_colon bs)

-- Different values have different escapes.
pub escape-injective : (v w : Bytes) → escape v ≡ escape w → v ≡ w
escape-injective v w h =
    let e : ok v ≡ ok w = sym (unescape-escape v) ∙ ap unescape h ∙ unescape-escape w in cc
