-- ===== src/Common/ArenaAllocator/Reused.antt =====
-- Any sequence of allocations and resets of an arena, from its start.
use stingdb.Base.{ℕ, ◌%◌, ◌^◌, ◌≤◌, ◌<◌, ◌≡◌, ◌≢◌, ◌∙◌, List, [], ◌∷◌, Option, arith, subst, sym}
use stingdb.Base.Effect.{
  Eff, done, out_of_memory, bind, Ensures, Ensures-bind, Ensures-weaken, Ensures-both,
}
use stingdb.Common.ArenaAllocator.{ArenaAllocator, allocate, reset, create}
use stingdb.Common.ArenaAllocator.Apart.{Provides, Region, ArePlaced, AreApart, IsArena}
use stingdb.Common.ArenaAllocator.Allocated.{allocate-IsArena, allocate_chunk-IsArena}
use stingdb.Common.ArenaAllocator.Blocks.{
  Releases, HasBlocks, allocate_chunk-HasBlocks, allocate-HasBlocks, reset-IsArena,
}

pub data Command : Type 0 where
  allocating : ℕ → ℕ → Command
  resetting : Command

-- The regions that were given and not cleared are passed on.
unfoldable pub run_commands :
    {H : Type 0}
    → (ℕ → H → Option (ℕ × H))
    → (ℕ → H → H)
    → List Command
    → List Region
    → Eff (ArenaAllocator H) (List Region)
run_commands new_chunk free_chunk [] rs s = done rs s
run_commands new_chunk free_chunk (allocating size align ∷ commands) rs s =
    bind (allocate new_chunk size align s) λ p.
      run_commands new_chunk free_chunk commands
        (record { start = p; size = size; align = align } ∷ rs)
run_commands new_chunk free_chunk (resetting ∷ commands) rs s =
    run_commands new_chunk free_chunk commands [] (reset free_chunk s)

-- The sizes fit a block, and the alignments are those that `new` keeps.
abbrev pub AreFitting : ℕ → List Command → Type 0
AreFitting chunk_size [] = Unit {0}
AreFitting chunk_size (allocating size align ∷ commands) =
    (size ≤ chunk_size) × (align ≢ 0) × (16 % align ≡ 0) × AreFitting chunk_size commands
AreFitting chunk_size (resetting ∷ commands) = AreFitting chunk_size commands

module _ {H : Type 0} (new_chunk : ℕ → H → Option (ℕ × H)) (provides : Provides new_chunk)
    (free_chunk : ℕ → H → H) (chunk_size : ℕ)
    (releases : Releases new_chunk provides free_chunk chunk_size)
    (small : chunk_size < 2 ^ 62) where
  run_commands-IsArena :
      (commands : List Command) (rs : List Region) (s : ArenaAllocator H)
      → IsArena new_chunk provides s rs
      → HasBlocks new_chunk provides s
      → s.chunk_size ≡ chunk_size
      → AreFitting chunk_size commands
      → Ensures
          (run_commands new_chunk free_chunk commands rs s)
          (λ rs' t. AreApart new_chunk provides rs' × ArePlaced new_chunk provides t.heap rs')
          (λ e t. e ≡ out_of_memory)
  unfolding run_commands
  run_commands-IsArena [] rs s h blocks same fit = (h.apart, h.placed)
  run_commands-IsArena (allocating size align ∷ commands) rs s h blocks same
        (fits, nonzero, divides, fit) =
      Ensures-bind (allocate new_chunk size align s) _ _ _ _
        (Ensures-weaken (allocate new_chunk size align s) _ _ _ _
          (Ensures-both (allocate new_chunk size align s) _ _ _ _
            (allocate-IsArena new_chunk provides s rs h size align (omega (arith, fits, same))
              nonzero divides)
            (allocate-HasBlocks new_chunk provides size align s nonzero (blocks, (h.base, h.last))))
          (λ p t q. q) (λ e t q. q.0.0))
        λ p t ((h', same'), blocks').
          run_commands-IsArena commands (record { start = p; size = size; align = align } ∷ rs) t h'
            blocks' (same' ∙ same) fit
  run_commands-IsArena (resetting ∷ commands) rs s h blocks same fit =
      let (h', blocks', same') =
        reset-IsArena new_chunk provides free_chunk s
          (subst (Releases new_chunk provides free_chunk) (sym same) releases) (h.bounded)
          (blocks, (h.base, h.last)) in
      run_commands-IsArena commands [] (reset free_chunk s) h' blocks' (same' ∙ same) fit

  -- From a new arena, with blocks of fewer than 2 ^ 62 bytes, any sequence of `Allocate` and `Reset`
  -- calls, with sizes that fit a block and alignments of which 16 is a multiple, either runs out of
  -- memory, or the regions that were given since the last reset are aligned as asked, lie in memory that
  -- is in use, and share no byte with each other. This relies on `new` to give aligned blocks of the
  -- address space that are not in use, and on `delete` to give back no byte outside its block.
  pub run_commands-apart :
      (h : H) (commands : List Command)
      → AreFitting chunk_size commands
      → Ensures
          (bind
            (create new_chunk chunk_size h)
            (λ _. run_commands new_chunk free_chunk commands []))
          (λ rs t. AreApart new_chunk provides rs × ArePlaced new_chunk provides t.heap rs)
          (λ e t. e ≡ out_of_memory)
  unfolding create
  run_commands-apart h commands fit =
      Ensures-bind (create new_chunk chunk_size h) _ _ _ _
        (Ensures-weaken (create new_chunk chunk_size h) _ _ _ _
          (Ensures-both (create new_chunk chunk_size h) _ _ _ _
            (allocate_chunk-IsArena new_chunk provides empty [] small tt tt)
            (allocate_chunk-HasBlocks new_chunk provides empty tt))
          (λ _ t q. q) (λ e t q. q.0.0))
        λ _ t ((arena, aligned, at_start, same), blocks).
          run_commands-IsArena commands [] t arena blocks same fit
    where
      empty : ArenaAllocator H
      empty = record { chunk_size = chunk_size; current_offset = 0; chunks = []; heap = h }
