-- ===== src/Storage/BufferPool/Frames.antt =====
-- The lists of frames: the free list and the LRU list.
use stingdb.Base.{
  ℕ, zero, suc, ◌+◌, ◌≡◌, ◌≢◌, refl, List, [], ◌∷◌, ◌==◌, if◌then◌else◌, count, arith, leb, ltb,
  ◌&&◌,
}
use stingdb.Storage.BufferPool.{remove, split_last, frame_numbers}

pub count-remove_self : (f : ℕ) (gs : List ℕ) → count f (remove f gs) ≡ 0
unfolding remove
count-remove_self f [] = refl
count-remove_self f (g ∷ gs) = ground (arith, count-remove_self f gs)

pub count-remove_ne : (f g : ℕ) (gs : List ℕ) → g ≢ f → count g (remove f gs) ≡ count g gs
unfolding remove
count-remove_ne f g [] ne = refl
count-remove_ne f g (h ∷ gs) ne = ground (arith, count-remove_ne f g gs ne)

-- The last frame and those before it are the whole list.
pub count-split_last :
    (x g : ℕ) (gs : List ℕ)
    → count x (g ∷ gs) ≡ (if (split_last g gs).0 == x then 1 else 0) + count x (split_last g gs).1
unfolding split_last
count-split_last x g [] = refl
count-split_last x g (h ∷ gs) = omega (arith, count-split_last x h gs)

pub count-frame_numbers :
    (x i n : ℕ) → count x (frame_numbers i n) ≡ (if leb i x && ltb x (i + n) then 1 else 0)
unfolding frame_numbers
count-frame_numbers x i zero = ground arith
count-frame_numbers x i (suc n) = ground (arith, count-frame_numbers x (i + 1) n)
