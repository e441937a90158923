-- ===== src/BlockWatch/Laws.antt =====
-- What the block watcher relies on of the stack behind its `Stack` interface.
use x_mesh.Prelude.{
  ℕ, ◌<◌, none, some, List, [], ◌∷◌, ◌++◌, ◌≡◌, get_last?, drop_last, kept, IsSuffix,
}
use x_mesh.Errors.{Error, ok}
use x_mesh.MiniHeader.{MiniHeader}
use x_mesh.BlockWatch.Types.{Stack}

-- `contents` are the headers of a stack, the top last, and `limit` is the most that it keeps.
-- `Since id base s` says that `s` came from the stack with the headers `base` and the checkpoint `id`
-- by pushes and pops.
pub record StackLaws {S : Type 0} (stack : Stack S) : Type 1 where
  pub limit : ℕ
  pub limit_positive : 0 < limit
  pub contents : S → List MiniHeader
  pub IsValid : S → Type 0
  pub Since : ℕ → List MiniHeader → S → Type 0
  pub since_valid : (id : ℕ) (base : List MiniHeader) (s : S) → Since id base s → IsValid s
  pub peek_last : (s : S) → IsValid s → stack.peek s ≡ ok (get_last? (contents s))
  pub peek_all_contents : (s : S) → IsValid s → stack.peek_all s ≡ ok (contents s)
  pub pop_last : (s : S) → IsValid s → (stack.pop s).0 ≡ ok (get_last? (contents s))
  pub pop_contents : (s : S) → IsValid s → contents (stack.pop s).1 ≡ drop_last (contents s)
  pub pop_since :
      (id : ℕ) (base : List MiniHeader) (s : S) → Since id base s → Since id base (stack.pop s).1
  pub push_contents :
      (h : MiniHeader) (s : S)
      → IsValid s
      → (stack.push h s).0 ≡ none
      → contents (stack.push h s).1 ≡ kept limit (contents s) ++ h ∷ []
  pub push_refused :
      (h : MiniHeader) (s : S) (e : Error)
      → IsValid s
      → (stack.push h s).0 ≡ some e
      → contents (stack.push h s).1 ≡ contents s
  pub push_since :
      (id : ℕ) (base : List MiniHeader) (h : MiniHeader) (s : S)
      → Since id base s
      → Since id base (stack.push h s).1
  pub push_valid : (h : MiniHeader) (s : S) → IsValid s → IsValid (stack.push h s).1
  pub clear_contents :
      (s : S) → IsValid s → (contents (stack.clear s).1 ≡ []) × IsValid (stack.clear s).1
  pub checkpoint_since :
      (s : S)
      → IsValid s
      → (id : ℕ) × ((stack.checkpoint s).0 ≡ ok id)
        × Since id (contents s) (stack.checkpoint s).1
        × (contents (stack.checkpoint s).1 ≡ contents s)
  pub reset_since :
      (id : ℕ) (base : List MiniHeader) (s : S)
      → Since id base s
      → ((stack.reset id s).0 ≡ none)
        × IsValid (stack.reset id s).1
        × IsSuffix (contents (stack.reset id s).1) base
