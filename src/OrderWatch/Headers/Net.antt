-- ===== src/OrderWatch/Headers/Net.antt =====
-- The insertions and deletions of `updateBlockHeadersStoredInDB` (zeroex/orderwatch/order_watcher.go)
-- against the block events one after the other.
use x_mesh.Prelude.{
  ℕ, ◌≡◌, refl, ap, sym, ◌∙◌, inl, inr, Bool, true, false, ◌&&◌, List, [], ◌∷◌, ◌==◌, ==_iff,
  Bool-cases, if◌then◌else◌, arith,
}
use x_mesh.MiniHeader.{MiniHeader}
use x_mesh.BlockWatch.Types.{Event, EventType, added, removed}
use x_mesh.OrderWatch.Headers.{Headers, has, delete_key, Blocks, sort_event, sort_events}

-- Whether a header is stored after the events, one by one, if it was stored before or not.
abbrev pub is_stored_by : ℕ → List Event → Bool → Bool
is_stored_by hash [] before = before
is_stored_by hash (event ∷ events) before = is_stored_by hash events (
    if event.block_header.hash == hash
    then elim event.type [ added ↦ true | removed ↦ false ]
    else before)

-- Whether it is stored after the insertions and the deletions.
abbrev pub is_stored_after : ℕ → Blocks → Bool → Bool
is_stored_after hash m before =
    if has hash m.to_add then true else if has hash m.to_remove then false else before

-- No hash stands twice in a map.
abbrev pub Distinct : Headers → Type 0
Distinct [] = Unit
Distinct ((key, header) ∷ headers) = (has key headers ≡ false) × Distinct headers

-- There is at most one operation for each hash.
abbrev pub IsSingle : Blocks → Type 0
IsSingle m =
    Distinct m.to_add
    × Distinct m.to_remove
    × ((hash : ℕ) → (has hash m.to_add && has hash m.to_remove) ≡ false)

-- the same, as the lemmas use it
abbrev Single : Blocks → Type 0
Single m =
    Distinct m.to_add
    × Distinct m.to_remove
    × ((hash : ℕ) → has hash m.to_add ≡ true → has hash m.to_remove ≡ false)

both-false : (a b : Bool) → (a ≡ true → b ≡ false) → (a && b) ≡ false
both-false true b h = h refl
both-false false b h = refl

has-delete_key :
    (k hash : ℕ) (m : Headers)
    → has hash (delete_key k m) ≡ (if k == hash then false else has hash m)
has-delete_key k hash [] = elim (Bool-cases (k == hash)) [ inl e ↦ rw e refl | inr e ↦ rw e refl ]
has-delete_key k hash ((key, header) ∷ m) = elim (Bool-cases (key == k)) [
  | inl e ↦ elim (Bool-cases (k == hash)) [
    | inl f ↦ rw e (has-delete_key k hash m ∙ rw f refl)
    | inr f ↦ let g = follows k key hash e f in rw (e, g) (has-delete_key k hash m ∙ rw f refl)
  ]
  | inr e ↦ elim (Bool-cases (key == hash)) [
    | inl f ↦ let g = apart k key hash e f in rw (e, f, g) refl
    | inr f ↦ rw (e, f) (has-delete_key k hash m)
  ]
]
  where
    apart : (k key hash : ℕ) → (key == k) ≡ false → (key == hash) ≡ true → (k == hash) ≡ false
    apart k key hash e f = ground arith

    follows : (k key hash : ℕ) → (key == k) ≡ true → (k == hash) ≡ false → (key == hash) ≡ false
    follows k key hash e f = ground arith

delete_key-Distinct : (k : ℕ) (m : Headers) → Distinct m → Distinct (delete_key k m)
delete_key-Distinct k [] d = tt
delete_key-Distinct k ((key, header) ∷ m) (fresh, d) = elim (Bool-cases (key == k)) [
  | inl e ↦ rw e (delete_key-Distinct k m d)
  | inr e ↦ rw e (has-delete_key k key m ∙ still (k == key) fresh, delete_key-Distinct k m d)
]
  where
    still : (b : Bool) → has key m ≡ false → (if b then false else has key m) ≡ false
    still true h = refl
    still false h = h

-- what an event makes of whether a header is stored
abbrev becomes : EventType → Bool
becomes added = true
becomes removed = false

sort_event-stored :
    (hash : ℕ) (type : EventType) (header : MiniHeader) (m : Blocks) (before : Bool)
    → is_stored_after hash (sort_event type header m) before ≡ (
        if header.hash == hash
        then elim type [ added ↦ true | removed ↦ false ]
        else is_stored_after hash m before)
unfolding sort_event
sort_event-stored hash added header m before = elim (Bool-cases (has header.hash m.to_add)) [
  | inl e ↦ elim (Bool-cases (header.hash == hash)) [
    | inl f ↦
        let there = ap (λ k. has k m.to_add) (sym ((==_iff header.hash hash).0 f)) ∙ e in
        rw (e, f, there, sort_event) refl
    | inr f ↦ rw (e, f, sort_event) refl
  ]
  | inr e ↦ elim (Bool-cases (header.hash == hash)) [
    | inl f ↦ rw (e, f, sort_event) refl
    | inr f ↦
        let kept = has-delete_key header.hash hash m.to_remove in
        rw (e, f, kept, f, sort_event) refl
  ]
]
sort_event-stored hash removed header m before =
    let gone = has-delete_key header.hash hash m.to_add in
    elim (Bool-cases (has header.hash m.to_remove)) [
      | inl e ↦ elim (Bool-cases (header.hash == hash)) [
        | inl f ↦
            let there = ap (λ k. has k m.to_remove) (sym ((==_iff header.hash hash).0 f)) ∙ e in
            rw (e, gone, f, there, sort_event) refl
        | inr f ↦ rw (e, gone, f, sort_event) refl
      ]
      | inr e ↦ elim (Bool-cases (header.hash == hash)) [
        | inl f ↦ rw (e, gone, f, sort_event) refl
        | inr f ↦ rw (e, gone, f, sort_event) refl
      ]
    ]

sort_event-Single :
    (type : EventType) (header : MiniHeader) (m : Blocks)
    → Single m
    → Single (sort_event type header m)
unfolding sort_event
sort_event-Single added header m (d, e, apart) = elim (Bool-cases (has header.hash m.to_add)) [
  | inl there ↦ rw (there, sort_event) (d, e, apart)
  | inr fresh ↦
      rw (fresh, sort_event)
        (
          (fresh, d),
          delete_key-Distinct header.hash m.to_remove e,
          λ hash h. elim (Bool-cases (header.hash == hash)) [
            | inl f ↦ has-delete_key header.hash hash m.to_remove ∙ rw f refl
            | inr f ↦
                let h' = rw f at h in
                has-delete_key header.hash hash m.to_remove ∙ rw f (apart hash h')
          ],
        )
]
sort_event-Single removed header m (d, e, apart) = elim (Bool-cases (has header.hash m.to_remove)) [
  | inl there ↦
      rw (there, sort_event)
        (delete_key-Distinct header.hash m.to_add d, e, λ hash h. apart hash (kept hash h))
  | inr fresh ↦
      rw (fresh, sort_event)
        (
          delete_key-Distinct header.hash m.to_add d,
          (fresh, e),
          λ hash h. elim (Bool-cases (header.hash == hash)) [
            | inl f ↦ absurd (gone hash f h)
            | inr f ↦ rw f (apart hash (kept hash h))
          ],
        )
]
  where
    kept : (hash : ℕ) → has hash (delete_key header.hash m.to_add) ≡ true → has hash m.to_add ≡ true
    kept hash h =
        let both = sym (has-delete_key header.hash hash m.to_add) ∙ h in
        elim (Bool-cases (header.hash == hash)) [
          | inl f ↦ let bad = rw f at both in cc
          | inr f ↦ rw f at both
        ]

    gone :
        (hash : ℕ)
        → (header.hash == hash) ≡ true
        → has hash (delete_key header.hash m.to_add) ≡ true
        → ⊥
    gone hash f h =
        let both = sym (has-delete_key header.hash hash m.to_add) ∙ h in
        let bad = rw f at both in cc

sort_events-net :
    (hash : ℕ) (events : List Event) (m : Blocks) (before : Bool)
    → Single m
    → Single (sort_events events m)
      × (is_stored_after hash (sort_events events m) before
          ≡ is_stored_by hash events (is_stored_after hash m before))
unfolding sort_events
sort_events-net hash [] m before single = (single, refl)
sort_events-net hash (event ∷ events) m before single =
    let next = sort_event event.type event.block_header m in
    let (single', same) =
      sort_events-net hash events next before
        (sort_event-Single event.type event.block_header m single) in
    (
      single',
      same
          ∙ ap (is_stored_by hash events)
              (sort_event-stored hash event.type event.block_header m before),
    )

-- The insertions and deletions that block events come to are at most one for each hash, and lead
-- to the same as the events one after the other: whether a header is stored after them, given
-- whether it was stored before.
pub sort_events-IsSingle :
    (events : List Event)
    → let m = sort_events events (record { to_add = []; to_remove = [] }) in
      IsSingle m
      × ((hash : ℕ) (before : Bool)
          → is_stored_after hash m before ≡ is_stored_by hash events before)
sort_events-IsSingle events =
    let m = sort_events events (record { to_add = []; to_remove = [] }) in
    let net = λ (hash : ℕ) (before : Bool).
      sort_events-net hash events (record { to_add = []; to_remove = [] }) before
        (tt, tt, λ hash h. refl) in
    let (d, e, apart) = (net 0 false).0 in
    (
      (d, e, λ hash. both-false (has hash m.to_add) (has hash m.to_remove) (apart hash)),
      λ hash before. (net hash before).1,
    )
