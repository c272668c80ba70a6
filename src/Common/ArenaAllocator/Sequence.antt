-- ===== src/Common/ArenaAllocator/Sequence.antt =====
-- Any sequence of allocations from a new arena.
use stingdb.Base.{ℕ, ◌%◌, ◌^◌, ◌≤◌, ◌<◌, ◌≡◌, ◌≢◌, ◌∙◌, List, [], ◌∷◌, Option, arith}
use stingdb.Base.Effect.{Eff, done, out_of_memory, bind, Ensures, Ensures-bind, Ensures-weaken}
use stingdb.Common.ArenaAllocator.{ArenaAllocator, allocate, create}
use stingdb.Common.ArenaAllocator.Apart.{Provides, Region, ArePlaced, AreApart, IsArena}
use stingdb.Common.ArenaAllocator.Allocated.{allocate-IsArena, allocate_chunk-IsArena}

-- `Allocate(size, align)` for each pair. The regions that were given before are passed on.
unfoldable pub allocate_all :
    {H : Type 0}
    → (ℕ → H → Option (ℕ × H))
    → List (ℕ × ℕ)
    → List Region
    → Eff (ArenaAllocator H) (List Region)
allocate_all new_chunk [] rs s = done rs s
allocate_all new_chunk ((size, align) ∷ calls) rs s =
    bind (allocate new_chunk size align s)
      λ p. allocate_all new_chunk calls (record { start = p; size = size; align = align } ∷ rs)

-- The sizes fit a block, and the alignments are those that `new` keeps.
abbrev pub AreFit : ℕ → List (ℕ × ℕ) → Type 0
AreFit chunk_size [] = Unit {0}
AreFit chunk_size ((size, align) ∷ calls) =
    (size ≤ chunk_size) × (align ≢ 0) × (16 % align ≡ 0) × AreFit chunk_size calls

module _ {H : Type 0} (new_chunk : ℕ → H → Option (ℕ × H)) (provides : Provides new_chunk) where
  allocate_all-IsArena :
      (calls : List (ℕ × ℕ)) (rs : List Region) (s : ArenaAllocator H) (chunk_size : ℕ)
      → IsArena new_chunk provides s rs
      → s.chunk_size ≡ chunk_size
      → AreFit chunk_size calls
      → Ensures
          (allocate_all new_chunk calls rs s)
          (λ rs' t. AreApart new_chunk provides rs' × ArePlaced new_chunk provides t.heap rs')
          (λ e t. e ≡ out_of_memory)
  unfolding allocate_all
  allocate_all-IsArena [] rs s chunk_size h same fit = (h.apart, h.placed)
  allocate_all-IsArena ((size, align) ∷ calls) rs s chunk_size h same
        (fits, nonzero, divides, fit) =
      Ensures-bind (allocate new_chunk size align s) _ _ _ _
        (Ensures-weaken (allocate new_chunk size align s) _ _ _ _
          (allocate-IsArena new_chunk provides s rs h size align (omega (arith, fits, same)) nonzero
            divides)
          (λ p t q. q) (λ e t q. q.0))
        λ p t (h', same').
          allocate_all-IsArena calls (record { start = p; size = size; align = align } ∷ rs) t
            chunk_size h' (same' ∙ same) fit

  -- From a new arena, with blocks of fewer than 2 ^ 62 bytes, any sequence of `Allocate` calls with sizes
  -- that fit a block and alignments of which 16 is a multiple either runs out of memory, or gives regions
  -- that are aligned as asked, lie in memory that is in use, and share no byte with each other. This
  -- relies on `new` to give aligned blocks of the address space that are not in use.
  pub allocate_all-apart :
      (chunk_size : ℕ) (h : H) (calls : List (ℕ × ℕ))
      → chunk_size < 2 ^ 62
      → AreFit chunk_size calls
      → Ensures
          (bind (create new_chunk chunk_size h) (λ _. allocate_all new_chunk calls []))
          (λ rs t. AreApart new_chunk provides rs × ArePlaced new_chunk provides t.heap rs)
          (λ e t. e ≡ out_of_memory)
  unfolding create
  allocate_all-apart chunk_size h calls small fit =
      Ensures-bind (create new_chunk chunk_size h) _ _ _ _
        (Ensures-weaken (create new_chunk chunk_size h) _ _ _ _
          (allocate_chunk-IsArena new_chunk provides
            (record { chunk_size = chunk_size; current_offset = 0; chunks = []; heap = h }) [] small
            tt tt)
          (λ _ t q. q) (λ e t q. q.0))
        λ _ t (arena, aligned, at_start, same).
          allocate_all-IsArena calls [] t chunk_size arena same fit
