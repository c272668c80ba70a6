-- ===== src/Storage/BPlusTree/Endless.antt =====
-- The search of a tree whose root is no leaf. The source has the number of the next page as a stub:
-- it is `INVALID_PAGE_ID`.
use stingdb.Base.{ℕ, ◌+◌, ◌-◌, ◌≡◌, ◌≢◌, sym, Bool}
use stingdb.Base.Bytes.{Bytes}
use stingdb.Storage.Page.{invalid_page_id}
use stingdb.Storage.Disk.{Device}
use stingdb.Storage.BufferPool.{BufferPool}
use stingdb.Storage.BufferPool.Held.{Held}
use stingdb.Storage.BPlusTree.{Latched}

module _ {D : Type 0} (asserts : Bool) (io : Device D) (fuel : ℕ) where
  module _ (q f n : ℕ) (b : Bytes) (g : ℕ) (c : Bytes) (apart : q ≢ invalid_page_id) where
    abbrev turned : invalid_page_id ≢ q
    turned e = apart (sym e)

    -- Where the search stands after its first round, and after each further one.
    abbrev pub IsAtInvalid : ℕ → Latched D → Latched D → Type 0
    IsAtInvalid m s t =
        Held invalid_page_id g (m + 1) c t.pool
        × Held q f n b t.pool
        × (t.readers g ≡ s.readers g + 1)
        × (t.readers f ≡ s.readers f - 1)
