-- ===== src/Common/ArenaAllocator/Allocated.antt =====
-- What a sequence of allocations gives.
use native.Mathlib.Nat.{mod-eq_of_lt, mod-lt, mod-mod_of_dvd, dvd_of_mod-eq-zero, zero-mod}
use stingdb.Base.{
  ℕ, ◌+◌, ◌-◌, ◌%◌, ◌^◌, ◌≤◌, ◌<◌, ◌≡◌, ◌≢◌, refl, sym, ◌∙◌, ap, ap₂, List, ◌∷◌, Option, ltb, arith,
  Bool-cases, inl, inr, ltb→lt, ltb→le, ne→==, Option-cases,
}
use stingdb.Base.Effect.{Outcome, done, out_of_memory, bind, Ensures, Ensures-bind}
use stingdb.Common.ArenaAllocator.{ArenaAllocator, place, allocate_chunk, allocate, padding_at}
use stingdb.Common.ArenaAllocator.Apart.{
  Provides, Region, ArePlaced, AreApart, ArePlaced-kept, AreOff-part, AreOff-fresh, IsArena,
  back-append, padding_at-aligns,
}

module _ {H : Type 0} (new_chunk : ℕ → H → Option (ℕ × H)) (provides : Provides new_chunk) where
  -- The place behind a padding that leaves room.
  place-IsArena :
      (s : ArenaAllocator H) (rs : List Region) (h : IsArena new_chunk provides s rs)
      (size padding align : ℕ)
      → s.current_offset + size + padding ≤ s.chunk_size
      → (h.base + s.current_offset + padding) % align ≡ 0
      → (p : ℕ) × (t : ArenaAllocator H) × (place size padding s ≡ done p t)
        × IsArena new_chunk provides t (record { start = p; size = size; align = align } ∷ rs)
        × (t.chunk_size ≡ s.chunk_size)
  unfolding place
  place-IsArena s rs h size padding align room aligned = (
    start,
    record s { current_offset = offset },
    rw (h.last, place)
        (ap₂ (λ (p o : ℕ). done p (record s { current_offset = o }))
          (mod-eq_of_lt (omega (arith, room, h.fits)))
          (mod-eq_of_lt (omega (arith, room, h.bounded)) ∙ omega arith)),
    record {
      base = h.base;
      last = h.last;
      bounded = h.bounded;
      in_chunk = omega (arith, room);
      fits = h.fits;
      rest_used = λ a w. h.rest_used a (omega (arith, w), omega (arith, w, room));
      rest_off = (
        λ a w v. absurd (omega (arith, w, v)),
        AreOff-part new_chunk provides (h.base + s.current_offset) (s.chunk_size - s.current_offset)
            (h.base + offset) (s.chunk_size - offset) (omega arith) (omega (arith, room)) rs
            h.rest_off,
      );
      placed = (aligned, λ a w. h.rest_used a (omega (arith, w), omega (arith, w, room)), h.placed);
      apart = (
        AreOff-part new_chunk provides (h.base + s.current_offset) (s.chunk_size - s.current_offset)
            start size (omega arith) (omega (arith, room)) rs h.rest_off,
        h.apart,
      );
    },
    refl,
  )
    where
      start : ℕ
      start = h.base + s.current_offset + padding

      offset : ℕ
      offset = s.current_offset + size + padding

  -- A new block: what was given before is apart from it.
  pub allocate_chunk-IsArena :
      (s : ArenaAllocator H) (rs : List Region)
      → s.chunk_size < 2 ^ 62
      → ArePlaced new_chunk provides s.heap rs
      → AreApart new_chunk provides rs
      → Ensures
          (allocate_chunk new_chunk s)
          (λ _ t.
            (h : IsArena new_chunk provides t rs) × (h.base % 16 ≡ 0)
            × (t.current_offset ≡ 0)
            × (t.chunk_size ≡ s.chunk_size))
          (λ e t. (e ≡ out_of_memory) × (t ≡ s))
  unfolding allocate_chunk
  allocate_chunk-IsArena s rs small placed apart =
      elim (Option-cases (new_chunk s.chunk_size s.heap)) [
        | inl nothing ↦ rw (nothing, allocate_chunk) (refl, refl)
        | inr ((c, h), e) ↦
            rw (e, allocate_chunk)
              (
                record {
                  base = c;
                  last = back-append s.chunks c;
                  bounded = small;
                  in_chunk = omega arith;
                  fits = provides.fits s.chunk_size s.heap c h e;
                  rest_used = λ a w.
                      provides.taken s.chunk_size s.heap c h e a
                        (omega (arith, w), omega (arith, w));
                  rest_off =
                      AreOff-fresh new_chunk provides (c + 0) (s.chunk_size - 0) s.heap
                        (λ a w.
                          provides.fresh s.chunk_size s.heap c h e a
                            (omega (arith, w), omega (arith, w)))
                        rs placed;
                  placed =
                      ArePlaced-kept new_chunk provides s.heap h
                        (provides.kept s.chunk_size s.heap c h e) rs placed;
                  apart = apart;
                },
                provides.aligned s.chunk_size s.heap c h e,
                refl,
                refl,
              )
      ]

  -- What one allocation leaves behind: its region beside the others, or no memory and no change.
  abbrev pub Allocates :
      ArenaAllocator H → List Region → ℕ → ℕ → Outcome (ArenaAllocator H) ℕ → Type 0
  Allocates s rs size align out =
      Ensures out
        (λ p t.
          IsArena new_chunk provides t (record { start = p; size = size; align = align } ∷ rs)
          × (t.chunk_size ≡ s.chunk_size))
        (λ e t. (e ≡ out_of_memory) × (t ≡ s))

  block_aligns :
      (base offset align : ℕ)
      → base % 16 ≡ 0
      → offset ≡ 0
      → 16 % align ≡ 0
      → (base + offset + 0) % align ≡ 0
  block_aligns base offset align aligned at_start divides =
      ap (λ (k : ℕ). k % align) (omega (arith, at_start))
      ∙ sym (mod-mod_of_dvd align base (dvd_of_mod-eq-zero align divides))
      ∙ ap (λ (k : ℕ). k % align) aligned
      ∙ zero-mod align

  small_align : (align : ℕ) → 16 % align ≡ 0 → align ≤ 16
  small_align align divides = elim (Bool-cases (ltb 16 align)) [
    | inl big ↦ absurd (omega (arith, mod-eq_of_lt (ltb→lt 16 align big), divides))
    | inr small ↦ ltb→le 16 align small
  ]

  from_new_chunk :
      (s : ArenaAllocator H) (rs : List Region)
      → IsArena new_chunk provides s rs
      → (size align : ℕ) → size ≤ s.chunk_size
      → 16 % align ≡ 0
      → Allocates s rs size align (bind (allocate_chunk new_chunk s) (λ _. place size 0))
  from_new_chunk s rs h size align fits divides =
      Ensures-bind (allocate_chunk new_chunk s) (λ _. place size 0) _ _ _
        (allocate_chunk-IsArena s rs h.bounded h.placed h.apart)
        λ _ t (new, aligned, at_start, same).
          let (p, u, e, h', same') =
            place-IsArena t rs new size 0 align (omega (arith, at_start, fits, same))
              (block_aligns new.base t.current_offset align aligned at_start divides) in
          rw e (h', same' ∙ same)

  pub allocate-IsArena :
      (s : ArenaAllocator H) (rs : List Region) (h : IsArena new_chunk provides s rs)
      (size align : ℕ)
      → size ≤ s.chunk_size
      → align ≢ 0
      → 16 % align ≡ 0
      → Allocates s rs size align (allocate new_chunk size align s)
  unfolding allocate
  allocate-IsArena s rs h size align fits nonzero divides =
      elim (Bool-cases (ltb s.chunk_size ((s.current_offset + size + padding) % 2 ^ 64))) [
        | inl over ↦
            rw (h.last, allocate, ne→== align 0 nonzero, over)
              (from_new_chunk s rs h size align fits divides)
        | inr room ↦
            let (p, t, e, h', same) =
              place-IsArena s rs h size padding align
                (omega (
                  arith,
                  ltb→le s.chunk_size ((s.current_offset + size + padding) % 2 ^ 64) room,
                  small,
                  fits,
                  h.in_chunk,
                  h.bounded,
                ))
                (padding_at-aligns h.base s.current_offset align nonzero
                  (omega (arith, h.in_chunk, h.fits))) in
            rw (h.last, allocate, ne→== align 0 nonzero, room, e) (h', same)
      ]
    where
      padding : ℕ
      padding = padding_at h.base s.current_offset align

      small : padding < 16
      small = omega (
        arith,
        mod-lt (align - (h.base + s.current_offset) % 2 ^ 64 % align) {m = align}
            (grind (arith, nonzero)),
        small_align align divides,
      )
