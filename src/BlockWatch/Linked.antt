-- ===== src/BlockWatch/Linked.antt =====
-- `buildCanonicalChain` stores a chain: each header is the parent of the next.
use x_mesh.Prelude.{
  ℕ, zero, suc, none, some, List, [], ◌∷◌, ◌++◌, ◌≡◌, refl, sym, ap, ◌∙◌, ◌==◌, length, get_last?,
  drop_last, tail, kept, Option-cases, Bool-cases, inl, inr, arith, get_last?-append,
  some-injective,
}
use x_mesh.Errors.{ok, Result-cases}
use x_mesh.MiniHeader.{MiniHeader}
use x_mesh.BlockWatch.Types.{Event, EventType, Config, Client, Watcher, Outcome}
use x_mesh.BlockWatch.Laws.{StackLaws}
use x_mesh.BlockWatch.Follows.{Follows, popped-Follows, node-Follows, build_chain-Follows}
use x_mesh.BlockWatch.Chain.{add_logs, push_next, build_chain}

abbrev pub Linked : List MiniHeader → Type 0
Linked [] = Unit
Linked (x ∷ []) = Unit
Linked (x ∷ y ∷ ys) = (y.parent ≡ x.hash) × Linked (y ∷ ys)

-- `h` may stand on top of `hs`.
abbrev pub Joins : List MiniHeader → MiniHeader → Type 0
Joins hs h = (top : MiniHeader) → get_last? hs ≡ some top → h.parent ≡ top.hash

-- What the client documents: a header found by its hash has that hash.
abbrev pub FindsByHash : {W : Type 0} → Client W → Type 0
FindsByHash {W} client =
    (hash : ℕ) (node : W) (h : MiniHeader)
    → (client.header_by_hash hash node).0 ≡ ok h
    → h.hash ≡ hash

Linked-append :
    (hs : List MiniHeader) (h : MiniHeader) → Linked hs → Joins hs h → Linked (hs ++ h ∷ [])
Linked-append [] h l j = tt
Linked-append (x ∷ []) h l j = (j x refl, tt)
Linked-append (x ∷ y ∷ ys) h l j = (l.0, Linked-append (y ∷ ys) h l.1 j)

Linked-tail : (hs : List MiniHeader) → Linked hs → Linked (tail hs)
Linked-tail [] l = tt
Linked-tail (x ∷ []) l = tt
Linked-tail (x ∷ y ∷ ys) l = l.1

Joins-tail : (hs : List MiniHeader) (h : MiniHeader) → Joins hs h → Joins (tail hs) h
Joins-tail [] h j = j
Joins-tail (x ∷ []) h j = λ top e. cc
Joins-tail (x ∷ y ∷ ys) h j = j

Linked-drop_last : (hs : List MiniHeader) → Linked hs → Linked (drop_last hs)
Linked-drop_last [] l = tt
Linked-drop_last (x ∷ []) l = tt
Linked-drop_last (x ∷ y ∷ []) l = tt
Linked-drop_last (x ∷ y ∷ z ∷ zs) l = (l.0, Linked-drop_last (y ∷ z ∷ zs) l.1)

Linked-kept :
    (limit : ℕ) (hs : List MiniHeader) (h : MiniHeader)
    → Linked hs
    → Joins hs h
    → Linked (kept limit hs ++ h ∷ [])
Linked-kept limit hs h l j = elim (Bool-cases (length hs == limit)) [
  | inl full ↦ rw full (Linked-append (tail hs) h (Linked-tail hs l) (Joins-tail hs h j))
  | inr room ↦ rw room (Linked-append hs h l j)
]

module _ {S W : Type 0} (config : Config S W) (laws : StackLaws config.stack) where
  open config use {stack, client}

  -- Logs are all that `addLogs` changes.
  pub add_logs_same :
      (next h : MiniHeader) (node : W)
      → (add_logs config next node).0 ≡ ok h
      → (h.hash ≡ next.hash)
        × (h.parent ≡ next.parent)
        × (h.number ≡ next.number)
        × (h.timestamp ≡ next.timestamp)
  unfolding add_logs
  add_logs_same next h node e = ground arith

  -- The stored headers are linked, and if nothing failed then `next` is on top.
  abbrev pub LinkedOutcome : MiniHeader → Outcome S W → Type 0
  LinkedOutcome next o =
      Linked (laws.contents o.watcher.headers)
      × (o.error ≡ none
          → (top : MiniHeader) × (get_last? (laws.contents o.watcher.headers) ≡ some top)
            × (top.hash ≡ next.hash))

  push_next-Linked :
      (next : MiniHeader) (events : List Event) (w : Watcher S W)
      → laws.IsValid w.headers
      → Linked (laws.contents w.headers)
      → Joins (laws.contents w.headers) next
      → LinkedOutcome next (push_next config next events w)
  unfolding push_next
  push_next-Linked next events w v l j = elim (Result-cases (add_logs config next w.node).0) [
    | inr (e, failed) ↦ rw (failed, push_next) (l, λ done. cc)
    | inl (h, found) ↦ elim (Option-cases (stack.push h w.headers).0) [
      | inl pushed ↦
          let same = add_logs_same next h w.node found in
          rw (found, pushed, push_next, laws.push_contents h w.headers v pushed)
            (
              Linked-kept laws.limit (laws.contents w.headers) h l (λ top e. same.1 ∙ j top e),
              λ done. (h, get_last?-append (kept laws.limit (laws.contents w.headers)) h, same.0),
            )
      | inr (e, refused) ↦
          rw (found, refused, push_next, laws.push_refused h w.headers e v refused) (l, λ done. cc)
    ]
  ]

  -- Above the parent that the client found, `next` joins.
  joins :
      (next parent : MiniHeader) (o : Outcome S W)
      → parent.hash ≡ next.parent
      → (top : MiniHeader) → get_last? (laws.contents o.watcher.headers) ≡ some top
      → top.hash ≡ parent.hash
      → Joins (laws.contents o.watcher.headers) next
  joins next parent o found top on_top same other last =
      sym found
      ∙ sym same
      ∙ ap (λ (h : MiniHeader). h.hash) (some-injective top other (sym on_top ∙ last))

  -- If the stack obeys the laws of a stack of headers, the client finds by a hash only the header
  -- with that hash, and the stored headers are linked by their parent hashes, then after the
  -- building of the chain, with an error or without, they still are; and if there was no error,
  -- the header on top has the hash of the one asked for. The hypothesis Follows says that the
  -- watcher is between a checkpoint and its reset.
  pub build_chain-Linked :
      (finds : FindsByHash client) (id : ℕ) (base start : List MiniHeader)
      (sent : List (List Event)) (fuel : ℕ) (next : MiniHeader) (events : List Event)
      (w : Watcher S W)
      → Follows config laws id base start sent events w
      → Linked (laws.contents w.headers)
      → LinkedOutcome next (build_chain config fuel next events w)
  unfolding build_chain
  build_chain-Linked finds id base start sent zero next events w f l = (l, λ done. cc)
  build_chain-Linked finds id base start sent (suc fuel) next events w f l =
      let valid = laws.since_valid id base w.headers f.since in
      let peeked = laws.peek_last w.headers valid in
      elim (Option-cases (get_last? (laws.contents w.headers))) [
        | inl empty ↦
            rw (peeked, empty, build_chain)
              (push_next-Linked next events w valid l (λ top e. absurd (ground arith)))
        | inr (latest, last) ↦ elim (Bool-cases (next.parent == latest.hash)) [
          | inl joined ↦
              rw (peeked, last, joined, build_chain)
                (push_next-Linked next events w valid l (λ top e. ground arith))
          | inr forked ↦
              let popped = laws.pop_last w.headers valid in
              let f' = popped-Follows config laws id base start sent latest events w last f in
              let w' = record w {
                headers = (stack.pop w.headers).1;
                node = (client.header_by_hash next.parent w.node).1;
              } in
              let l' : Linked (laws.contents w'.headers) =
                rw (laws.pop_contents w.headers valid)
                  (Linked-drop_last (laws.contents w.headers) l) in
              let events' =
                events ++ record { type = EventType.removed; block_header = latest } ∷ [] in
              elim (Result-cases (client.header_by_hash next.parent w.node).0) [
                | inr (e, missing) ↦
                    rw (peeked, last, forked, popped, missing, build_chain) (l', λ done. cc)
                | inl (parent, found) ↦
                    let below =
                      node-Follows config laws id base start sent
                        (client.header_by_hash next.parent w.node).1 f' in
                    let built = build_chain config fuel parent events' w' in
                    let ih =
                      build_chain-Linked finds id base start sent fuel parent events' w' below l' in
                    let ahead =
                      build_chain-Follows config laws id base start sent fuel parent events' w'
                        below in
                    elim (Option-cases built.error) [
                      | inr (e, failed) ↦
                          rw (peeked, last, forked, popped, found, failed, build_chain)
                            (ih.0, λ done. cc)
                      | inl done ↦
                          let (top, on_top, same) = ih.1 done in
                          rw (peeked, last, forked, popped, found, done, build_chain)
                            (push_next-Linked next built.events built.watcher
                              (laws.since_valid id base built.watcher.headers ahead.since) ih.0
                              (joins next parent built (finds next.parent w.node parent found) top
                                on_top same))
                    ]
              ]
        ]
      ]
