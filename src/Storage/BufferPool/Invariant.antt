-- ===== src/Storage/BufferPool/Invariant.antt =====
-- The invariant of the buffer pool, and that it holds of a new one.
use native.Mathlib.Decide.{ℕ_discrete}
use stingdb.Base.{ℕ, ◌+◌, ◌≤◌, ◌<◌, ◌≡◌, ◌≢◌, ◌⊎◌, inl, Option, some, count, arith}
use stingdb.Base.Table.{find}
use stingdb.Storage.Disk.{DiskManager}
use stingdb.Storage.BufferPool.{BufferPool, create}
use stingdb.Storage.BufferPool.Frames.{count-frame_numbers}

abbrev pub resident : {D : Type 0} → BufferPool D → ℕ → Option ℕ
resident s q = find ℕ_discrete q s.page_table

-- The page table leads to frames of the pool that hold the page, and so no frame holds two pages.
-- The frames on the free list hold none. Those on the LRU list hold an unpinned page. No frame is
-- listed twice.
pub record IsValid {D : Type 0} (s : BufferPool D) : Type 0 where
  pub table_in : (q f : ℕ) → resident s q ≡ some f → (f < s.pool_size) × ((s.frames f).page_id ≡ q)
  pub free_in :
      (f : ℕ) → 0 < count f s.free_list → (f < s.pool_size) × ((q : ℕ) → resident s q ≢ some f)
  pub lru_in :
      (f : ℕ)
      → 0 < count f s.lru_replacer
      → (resident s (s.frames f).page_id ≡ some f) × ((s.frames f).pin_count ≡ 0)
  pub once : (f : ℕ) → count f s.free_list + count f s.lru_replacer ≤ 1

-- No frame is lost: each is free, or can be evicted, or holds a page that is pinned.
abbrev pub IsAccounted : {D : Type 0} → BufferPool D → Type 0
IsAccounted s =
    (f : ℕ)
    → f < s.pool_size
    → (0 < count f s.free_list + count f s.lru_replacer)
      ⊎ ((resident s (s.frames f).page_id ≡ some f) × ((s.frames f).pin_count ≢ 0))

module _ {D : Type 0} (n : ℕ) (disk : DiskManager D) where
  pub create-IsValid : IsValid (create n disk)
  unfolding create find
  create-IsValid = record {
    table_in = λ q f h. absurd (cc);
    free_in = λ f h. (ground (arith, count-frame_numbers f 0 n), λ q e. cc);
    lru_in = λ f h. absurd (omega arith);
    once = λ f. ground (arith, count-frame_numbers f 0 n);
  }

  pub create-IsAccounted : IsAccounted (create n disk)
  unfolding create
  create-IsAccounted f h = inl (ground (arith, count-frame_numbers f 0 n))
