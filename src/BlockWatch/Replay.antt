-- ===== src/BlockWatch/Replay.antt =====
-- The block events tell a subscriber how the stored headers changed.
use x_mesh.Prelude.{ℕ, List, [], ◌∷◌, ◌++◌, ◌≡◌, refl, kept}
use x_mesh.MiniHeader.{MiniHeader}
use x_mesh.BlockWatch.Types.{Event, EventType}

-- One event turns the headers `hs` into `hs'`: an added header is pushed, a removed one was the top.
abbrev pub Applies : ℕ → EventType → MiniHeader → List MiniHeader → List MiniHeader → Type 0
Applies limit EventType.added h hs hs' = hs' ≡ kept limit hs ++ h ∷ []
Applies limit EventType.removed h hs hs' = hs ≡ hs' ++ h ∷ []

abbrev pub Replays : ℕ → List MiniHeader → List Event → List MiniHeader → Type 0
Replays limit hs [] hs' = hs ≡ hs'
Replays limit hs (e ∷ es) hs' =
    (mid : List MiniHeader) × Applies limit e.type e.block_header hs mid × Replays limit mid es hs'

pub Replays-append :
    (limit : ℕ) (hs mid hs' : List MiniHeader) (es fs : List Event)
    → Replays limit hs es mid
    → Replays limit mid fs hs'
    → Replays limit hs (es ++ fs) hs'
Replays-append limit hs mid hs' [] fs p q = rw p q
Replays-append limit hs mid hs' (e ∷ es) fs (next, a, p) q =
    (next, a, Replays-append limit next mid hs' es fs p q)

pub Replays-added :
    (limit : ℕ) (hs mid : List MiniHeader) (es : List Event) (h : MiniHeader)
    → Replays limit hs es mid
    → Replays limit hs
        (es ++ record { type = EventType.added; block_header = h } ∷ [])
        (kept limit mid ++ h ∷ [])
Replays-added limit hs mid es h p = Replays-append limit hs mid _ es _ p (_, refl, refl)

pub Replays-removed :
    (limit : ℕ) (hs mid : List MiniHeader) (es : List Event) (h : MiniHeader)
    → Replays limit hs es (mid ++ h ∷ [])
    → Replays limit hs (es ++ record { type = EventType.removed; block_header = h } ∷ []) mid
Replays-removed limit hs mid es h p = Replays-append limit hs _ mid es _ p (mid, refl, refl)
