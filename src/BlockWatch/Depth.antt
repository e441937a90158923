-- ===== src/BlockWatch/Depth.antt =====
-- `buildCanonicalChain` calls itself no deeper than there are stored headers.
use x_mesh.Prelude.{
  ℕ, zero, suc, ◌+◌, ◌<◌, none, some, List, [], ◌∷◌, ◌++◌, ◌≡◌, ap, ◌==◌, length, length-append,
  get_last?, drop_last, Option-cases, Bool-cases, inl, inr, arith, snoc-cases,
}
use x_mesh.Errors.{Result-cases}
use x_mesh.MiniHeader.{MiniHeader}
use x_mesh.BlockWatch.Types.{Event, EventType, Config, Watcher, Outcome}
use x_mesh.BlockWatch.Laws.{StackLaws}
use x_mesh.BlockWatch.Chain.{push_next, build_chain, chain_fuel, build_canonical_chain}

length-drop_last :
    (hs : List MiniHeader) (h : MiniHeader)
    → get_last? hs ≡ some h
    → length (drop_last hs) + 1 ≡ length hs
length-drop_last hs h e = elim (snoc-cases hs) [
  | inl (_, nil) ↦ absurd (ground arith)
  | inr (top, _, snoc) ↦ omega (arith, ap length snoc, length-append {0} (drop_last hs) (top ∷ []))
]

module _ {S W : Type 0} (config : Config S W) (laws : StackLaws config.stack) where
  open config use {stack, client}

  -- With more fuel than there are stored headers the fuel does not matter.
  pub build_chain_fuel :
      (id : ℕ) (base : List MiniHeader) (f g : ℕ) (next : MiniHeader) (events : List Event)
      (w : Watcher S W)
      → laws.Since id base w.headers
      → length (laws.contents w.headers) < f
      → length (laws.contents w.headers) < g
      → build_chain config f next events w ≡ build_chain config g next events w
  unfolding build_chain
  build_chain_fuel id base zero g next events w v p q = absurd (omega arith)
  build_chain_fuel id base (suc f) zero next events w v p q = absurd (omega arith)
  build_chain_fuel id base (suc f) (suc g) next events w s p q =
      let valid = laws.since_valid id base w.headers s in
      let peeked = laws.peek_last w.headers valid in
      let popped = laws.pop_last w.headers valid in
      elim (Option-cases (get_last? (laws.contents w.headers))) [
        | inl empty ↦ rw (peeked, empty, build_chain)
        | inr (latest, last) ↦ elim (Bool-cases (next.parent == latest.hash)) [
          | inl joined ↦ rw (peeked, last, joined, build_chain)
          | inr forked ↦ elim (Result-cases (client.header_by_hash next.parent w.node).0) [
            | inr (e, missing) ↦ rw (peeked, last, forked, popped, missing, build_chain)
            | inl (parent, found) ↦
                let w' = record w {
                  headers = (stack.pop w.headers).1;
                  node = (client.header_by_hash next.parent w.node).1;
                } in
                let events' =
                  events ++ record { type = EventType.removed; block_header = latest } ∷ [] in
                let shorter : length (laws.contents w'.headers) + 1
                    ≡ length (laws.contents w.headers) =
                  rw (laws.pop_contents w.headers valid)
                    (length-drop_last (laws.contents w.headers) latest last) in
                let same =
                  build_chain_fuel id base f g parent events' w'
                    (laws.pop_since id base w.headers s) (omega (arith, shorter, p))
                    (omega (arith, shorter, q)) in
                rw (peeked, last, forked, popped, found, build_chain)
                  (ap
                    (λ (b : Outcome S W). elim (b.error) as (λ x. Outcome S W) [
                      | some e ↦ b
                      | none ↦ push_next config next b.events b.watcher
                    ])
                    same)
          ]
        ]
      ]

  chain_fuel-contents :
      (s : S) → laws.IsValid s → chain_fuel config s ≡ suc (length (laws.contents s))
  unfolding chain_fuel
  chain_fuel-contents s v = rw (laws.peek_all_contents s v, chain_fuel)

  -- If the stack obeys the laws of a stack of headers and is between a checkpoint and its reset,
  -- the building of the chain comes to the same outcome with any fuel above the number of stored
  -- headers, so its own fuel is enough.
  pub build_canonical_chain_total :
      (id : ℕ) (base : List MiniHeader) (more : ℕ) (next : MiniHeader) (events : List Event)
      (w : Watcher S W)
      → laws.Since id base w.headers
      → length (laws.contents w.headers) < more
      → build_canonical_chain config next events w ≡ build_chain config more next events w
  unfolding build_canonical_chain
  build_canonical_chain_total id base more next events w s p =
      let enough = chain_fuel-contents w.headers (laws.since_valid id base w.headers s) in
      build_chain_fuel id base (chain_fuel config w.headers) more next events w s
        (omega (arith, enough)) p
