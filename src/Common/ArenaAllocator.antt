-- ===== src/Common/ArenaAllocator.antt =====
-- src/common/memory/arena_allocator.h. The memory that `new` gives is a parameter: `new_chunk` gives
-- the address of a block and what is left, or nothing, and `free_chunk` takes a block back.
pub mod Apart
pub mod Allocated
pub mod Sequence
pub mod Blocks
pub mod Reused
use stingdb.Base.{
  ℕ, ◌+◌, ◌-◌, ◌%◌, ◌^◌, List, [], ◌∷◌, ◌++◌, Option, none, some, ltb, ◌==◌, if◌then◌else◌,
}
use stingdb.Base.Effect.{Eff, Outcome, done, thrown, fault, out_of_memory, crash, bind, ◌>>=◌, ◌>>◌}

-- `chunks` are the addresses of the blocks.
pub record ArenaAllocator (H : Type 0) : Type 0 where
  pub chunk_size : ℕ
  pub current_offset : ℕ
  pub chunks : List ℕ
  pub heap : H

-- `chunks_.back()`
unfoldable pub back : List ℕ → Option ℕ
back [] = none
back (c ∷ []) = some c
back (c ∷ d ∷ cs) = back (d ∷ cs)

-- The padding in the last block.
abbrev pub padding_at : ℕ → ℕ → ℕ → ℕ
padding_at base offset align = (align - (base + offset) % 2 ^ 64 % align) % align

module _ {H : Type 0} where
  -- The place behind the padding, in the last block; without one it is undefined.
  unfoldable pub place : ℕ → ℕ → Eff (ArenaAllocator H) ℕ
  place size padding s = elim (back s.chunks) [
    | none ↦ fault
    | some base ↦
        done ((base + s.current_offset + padding) % 2 ^ 64)
          (record s { current_offset = (s.current_offset + (size + padding)) % 2 ^ 64 })
  ]

  unfoldable pub free_all : (ℕ → H → H) → List ℕ → H → H
  free_all free_chunk [] h = h
  free_all free_chunk (c ∷ cs) h = free_all free_chunk cs (free_chunk c h)

  -- The first block stays.
  unfoldable pub reset : (ℕ → H → H) → ArenaAllocator H → ArenaAllocator H
  unfolding free_all
  reset free_chunk s = elim s.chunks [
    | [] ↦ record s { current_offset = 0 }
    | c ∷ cs ↦ record s {
      current_offset = 0;
      chunks = c ∷ [];
      heap = free_all free_chunk cs s.heap;
    }
  ]

module _ {H : Type 0} (new_chunk : ℕ → H → Option (ℕ × H)) where
  unfoldable pub allocate_chunk : Eff (ArenaAllocator H) (Unit {0})
  allocate_chunk s = elim (new_chunk s.chunk_size s.heap) [
    | none ↦ thrown out_of_memory s
    | some (c, h) ↦ done tt (record s { current_offset = 0; chunks = s.chunks ++ c ∷ []; heap = h })
  ]

  -- The constructor.
  unfoldable pub create : ℕ → H → Outcome (ArenaAllocator H) (Unit {0})
  unfolding allocate_chunk
  create chunk_size h =
      allocate_chunk (record { chunk_size = chunk_size; current_offset = 0; chunks = []; heap = h })

  -- An alignment of 0 divides by 0.
  unfoldable pub allocate : ℕ → ℕ → Eff (ArenaAllocator H) ℕ
  unfolding allocate_chunk place
  allocate size align s = elim (back s.chunks) [
    | none ↦ fault
    | some base ↦
        if align == 0
        then fault
        else if ltb s.chunk_size
            ((s.current_offset + size + padding_at base s.current_offset align) % 2 ^ 64)
        then (allocate_chunk >> place size 0) s
        else place size (padding_at base s.current_offset align) s
  ]
