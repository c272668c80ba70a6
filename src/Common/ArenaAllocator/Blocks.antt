-- ===== src/Common/ArenaAllocator/Blocks.antt =====
-- The blocks of an arena, and what is left of them behind a reset.
use stingdb.Base.{
  ℕ, ◌+◌, ◌%◌, ◌^◌, ◌<◌, ◌≡◌, ◌≢◌, refl, List, [], ◌∷◌, ◌++◌, Option, some, arith, ltb, inl, inr,
  Bool-cases, Option-cases, ne→==,
}
use stingdb.Base.Effect.{Ensures, Ensures-bind, Ensures-weaken}
use stingdb.Common.ArenaAllocator.{
  ArenaAllocator, place, allocate_chunk, allocate, padding_at, free_all, reset, back,
}
use stingdb.Common.ArenaAllocator.Apart.{Provides, Within, IsArena, back-append}

no_last : (base : ℕ) → back [] ≡ some base → ⊥
unfolding back
no_last base e = cc

module _ {H : Type 0} (new_chunk : ℕ → H → Option (ℕ × H)) (provides : Provides new_chunk) where
  -- What is relied on of `delete`: a block of `n` bytes ceases to be in use, and nothing else.
  abbrev pub Releases : (ℕ → H → H) → ℕ → Type 0
  Releases free_chunk n =
      (c : ℕ) (h : H) (a : ℕ)
      → provides.IsUsed h a
      → (Within c n a → ⊥)
      → provides.IsUsed (free_chunk c h) a

  -- No byte of the block at `c` is in one of the blocks.
  abbrev AreOther : ℕ → ℕ → List ℕ → Type 0
  AreOther n c [] = Unit {0}
  AreOther n c (d ∷ ds) = ((a : ℕ) → Within c n a → Within d n a → ⊥) × AreOther n c ds

  -- Blocks of `n` bytes that are in use and apart.
  abbrev pub AreBlocks : ℕ → H → List ℕ → Type 0
  AreBlocks n h [] = Unit {0}
  AreBlocks n h (c ∷ cs) =
      (c + n < 2 ^ 64)
      × ((a : ℕ) → Within c n a → provides.IsUsed h a)
      × AreOther n c cs
      × AreBlocks n h cs

  AreOther-append :
      (n c d : ℕ) (cs : List ℕ)
      → AreOther n c cs
      → ((a : ℕ) → Within c n a → Within d n a → ⊥)
      → AreOther n c (cs ++ d ∷ [])
  AreOther-append n c d [] others apart = (apart, tt)
  AreOther-append n c d (e ∷ es) (first, others) apart =
      (first, AreOther-append n c d es others apart)

  -- A new block is apart from those in use.
  AreBlocks-append :
      (n d : ℕ) (h h' : H) (cs : List ℕ)
      → new_chunk n h ≡ some (d, h')
      → AreBlocks n h cs
      → AreBlocks n h' (cs ++ d ∷ [])
  AreBlocks-append n d h h' [] e blocks =
      (provides.fits n h d h' e, provides.taken n h d h' e, tt, tt)
  AreBlocks-append n d h h' (c ∷ cs) e (fits, used, others, blocks) = (
    fits,
    λ a w. provides.kept n h d h' e a (used a w),
    AreOther-append n c d cs others (λ a w v. provides.fresh n h d h' e a v (used a w)),
    AreBlocks-append n d h h' cs e blocks,
  )

  abbrev pub HasBlocks : ArenaAllocator H → Type 0
  HasBlocks s = AreBlocks s.chunk_size s.heap s.chunks

  -- There is a last block too.
  abbrev HasLast : ArenaAllocator H → Type 0
  HasLast s = HasBlocks s × ((base : ℕ) × (back s.chunks ≡ some base))

  allocate_chunk-HasLast :
      (s : ArenaAllocator H)
      → HasBlocks s
      → Ensures (allocate_chunk new_chunk s) (λ _ t. HasLast t) (λ e t. HasBlocks t)
  unfolding allocate_chunk
  allocate_chunk-HasLast s blocks = elim (Option-cases (new_chunk s.chunk_size s.heap)) [
    | inl nothing ↦ rw (nothing, allocate_chunk) blocks
    | inr ((c, h), e) ↦
        rw (e, allocate_chunk)
          (AreBlocks-append s.chunk_size c s.heap h s.chunks e blocks, (c, back-append s.chunks c))
  ]

  pub allocate_chunk-HasBlocks :
      (s : ArenaAllocator H)
      → HasBlocks s
      → Ensures (allocate_chunk new_chunk s) (λ _ t. HasBlocks t) (λ e t. HasBlocks t)
  allocate_chunk-HasBlocks s blocks =
      Ensures-weaken (allocate_chunk new_chunk s) _ _ _ _ (allocate_chunk-HasLast s blocks)
        (λ _ t q. q.0) (λ e t q. q)

  place-HasBlocks :
      (size padding : ℕ) (s : ArenaAllocator H)
      → HasLast s
      → Ensures (place size padding s) (λ p t. HasBlocks t) (λ e t. HasBlocks t)
  unfolding place
  place-HasBlocks size padding s (blocks, (base, last)) = rw (last, place) blocks

  pub allocate-HasBlocks :
      (size align : ℕ) (s : ArenaAllocator H)
      → align ≢ 0
      → HasLast s
      → Ensures (allocate new_chunk size align s) (λ p t. HasBlocks t) (λ e t. HasBlocks t)
  unfolding allocate
  allocate-HasBlocks size align s nonzero (blocks, (base, last)) =
      let padding = padding_at base s.current_offset align in
      elim (Bool-cases (ltb s.chunk_size ((s.current_offset + size + padding) % 2 ^ 64))) [
        | inl over ↦
            rw (last, allocate, ne→== align 0 nonzero, over)
              (Ensures-bind (allocate_chunk new_chunk s) _ _ _ _ (allocate_chunk-HasLast s blocks)
                (λ _. place-HasBlocks size 0))
        | inr room ↦
            rw (last, allocate, ne→== align 0 nonzero, room)
              (place-HasBlocks size padding s (blocks, (base, last)))
      ]

  free_all-kept :
      (free_chunk : ℕ → H → H) (n : ℕ)
      → Releases free_chunk n
      → (c : ℕ) (cs : List ℕ) (h : H) → AreOther n c cs
      → (a : ℕ) → Within c n a
      → provides.IsUsed h a
      → provides.IsUsed (free_all free_chunk cs h) a
  unfolding free_all
  free_all-kept free_chunk n releases c [] h others a w used = used
  free_all-kept free_chunk n releases c (d ∷ ds) h (first, others) a w used =
      free_all-kept free_chunk n releases c ds (free_chunk d h) others a w
        (releases d h a used (λ v. first a w v))

  -- A reset leaves an arena that has given nothing, with the first block for all of it.
  pub reset-IsArena :
      (free_chunk : ℕ → H → H) (s : ArenaAllocator H)
      → Releases free_chunk s.chunk_size
      → s.chunk_size < 2 ^ 62
      → HasLast s
      → IsArena new_chunk provides (reset free_chunk s) []
        × HasBlocks (reset free_chunk s)
        × ((reset free_chunk s).chunk_size ≡ s.chunk_size)
  unfolding reset
  reset-IsArena free_chunk s releases small (blocks, (base, last)) =
      first_block s.chunks refl blocks last
    where
      first_block :
          (chunks : List ℕ)
          → s.chunks ≡ chunks
          → AreBlocks s.chunk_size s.heap chunks
          → back chunks ≡ some base
          → IsArena new_chunk provides (reset free_chunk s) []
            × HasBlocks (reset free_chunk s)
            × ((reset free_chunk s).chunk_size ≡ s.chunk_size)
      first_block [] e h f = absurd (no_last base f)
      first_block (c ∷ cs) e (fits, used, others, rest) f =
          let still : (a : ℕ)
              → Within c s.chunk_size a
              → provides.IsUsed (free_all free_chunk cs s.heap) a =
            λ a w.
              free_all-kept free_chunk s.chunk_size releases c cs s.heap others a w (used a w) in
          rw (e, reset)
            (
              record {
                base = c;
                last = back-append [] c;
                bounded = small;
                in_chunk = omega arith;
                fits = fits;
                rest_used = λ a w. still a (omega (arith, w), omega (arith, w));
                rest_off = tt;
                placed = tt;
                apart = tt;
              },
              (fits, still, tt, tt),
              refl,
            )
