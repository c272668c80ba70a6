-- ===== src/Tests/Pool.antt =====
-- The buffer pool on the device in memory.
use native.Mathlib.Decide.{ℕ_discrete}
use stingdb.Base.{
  ℕ, zero, suc, ◌+◌, ◌<◌, ◌≡◌, refl, sym, inl, inr, true, false, [], ◌∷◌, none, some, arith, count,
  ltb, if◌then◌else◌, ◌-◌, ◌^◌, some_injective,
}
use stingdb.Base.Bytes.{zeros}
use stingdb.Base.Effect.{done, Ensures, queue_full}
use stingdb.Base.Table.{find}
use stingdb.Storage.Disk.{DiskManager}
use stingdb.Storage.Disk.Serves.{Kept, Awaited, await_completion-Awaited}
use stingdb.Storage.Disk.{await_completion}
use stingdb.Storage.BufferPool.{
  BufferPool, flush_page, flush_all_pages, create, new_page, fetch_page, unpin_page, pin,
}
use stingdb.Storage.BufferPool.Invariant.{
  resident, IsValid, IsAccounted, create-IsValid, create-IsAccounted,
}
use stingdb.Storage.BufferPool.Taken.{Aborted}
use stingdb.Storage.BufferPool.Evict.{Settles}
use stingdb.Storage.BufferPool.Install.{Pinned}
use stingdb.Storage.BufferPool.Hit.{fetch_page_hit}
use stingdb.Storage.BufferPool.Fetch.{Loads, fetch_page_miss}
use stingdb.Storage.BufferPool.New.{Creates, new_page_lem}
use stingdb.Storage.BufferPool.Unpin.{released_state, unpin_page_lem}
use stingdb.Storage.BufferPool.Contents.{IsClean}
use stingdb.Storage.BufferPool.FlushEntries.{IsFull, Keeps}
use stingdb.Storage.BufferPool.Entries.{HasEntries}
use stingdb.Storage.BufferPool.FlushAll.{WritesBack, flush_all_pages-WritesBack}
use stingdb.Storage.BufferPool.Flush.{Flushed, flush_page-Flushed}
use stingdb.Storage.BufferPool.Preserve.{Sees, fetch_page-Sees}
use stingdb.Storage.BufferPool.Accounted.{fetch_page-IsAccounted, new_page-IsAccounted}
use stingdb.Tests.Device.{Drive, drive, drive-Serves, drive-Stores, new_drive}

abbrev Any : ℕ → Drive → Type 0
Any f d = Unit {0}

abbrev Any-Kept : (f : ℕ) → Kept drive (Any f)
Any-Kept f = record { peek_kept = λ d k. tt; advance_kept = λ d k. tt }

-- A pool of one frame, empty.
abbrev empty_pool : BufferPool Drive
empty_pool = create 1 new_drive

empty-IsValid : IsValid empty_pool
empty-IsValid = create-IsValid 1 new_drive

empty-IsAccounted : IsAccounted empty_pool
empty-IsAccounted = create-IsAccounted 1 new_drive

empty_unused : (q : ℕ) → resident empty_pool q ≡ none
unfolding create find
empty_unused q = refl

-- A pool of two frames, with page 0 in frame 0, pinned, and page 1 in frame 1, dirty and unpinned.
abbrev two_pages : BufferPool Drive
two_pages = record {
  pool_size = 2;
  frames = λ g. record {
    bytes = λ i. if ltb i 4 then 9 else 0;
    page_id = g;
    pin_count = 1 - g;
    is_dirty = true;
  };
  page_table = (0, 0) ∷ (1, 1) ∷ [];
  lru_replacer = 1 ∷ [];
  free_list = [];
  disk = record new_drive { next_page_id = 2 };
}

two-resident : (q f : ℕ) → resident two_pages q ≡ some f → (f < 2) × (f ≡ q)
unfolding find ℕ_discrete
two-resident zero f h = (omega (arith, some_injective 0 f h), sym (some_injective 0 f h))
two-resident (suc zero) f h = (omega (arith, some_injective 1 f h), sym (some_injective 1 f h))
two-resident (suc (suc q)) f h = ground (arith, h)

two-lru :
    (f : ℕ)
    → 0 < count f two_pages.lru_replacer
    → (resident two_pages f ≡ some f) × ((two_pages.frames f).pin_count ≡ 0)
unfolding find ℕ_discrete
two-lru zero h = absurd (omega arith)
two-lru (suc zero) h = (refl, refl)
two-lru (suc (suc f)) h = absurd (grind arith)

two-IsValid : IsValid two_pages
two-IsValid = record {
  table_in = two-resident;
  free_in = λ f h. absurd (omega (arith, h));
  lru_in = two-lru;
  once = λ f. ground arith;
}

two-IsAccounted : IsAccounted two_pages
unfolding find ℕ_discrete
two-IsAccounted zero h = inr (refl, λ e. omega (arith, e))
two-IsAccounted (suc zero) h = inl (omega arith)
two-IsAccounted (suc (suc f)) h = absurd (omega arith)

two-IsClean : IsClean drive-Stores two_pages
two-IsClean p f i h e c = absurd (cc)

pinned_there : resident two_pages 0 ≡ some 0
unfolding find ℕ_discrete
pinned_there = refl

unused_there : resident two_pages 2 ≡ none
unfolding find ℕ_discrete
unused_there = refl

two-Settles : (f : ℕ) → 0 < count f two_pages.lru_replacer → Settles drive (Any f) two_pages f
two-Settles f h = record { clean = λ _. tt; dirty = λ _ _. tt }

fetch_page-Sees_example :
    Ensures
      (fetch_page drive 300 2 two_pages)
      (Sees drive-Stores two_pages two-IsValid two-IsClean refl 2)
      Aborted
fetch_page-Sees_example = fetch_page-Sees drive-Stores two_pages two-IsValid two-IsClean refl 2

fetch_page_miss_example :
    Ensures
      (fetch_page drive 300 2 two_pages)
      (Loads drive 300 drive-Serves Any Any-Kept two_pages two-IsValid 2 unused_there)
      Aborted
fetch_page_miss_example =
    fetch_page_miss drive 300 drive-Serves Any Any-Kept two_pages two-IsValid 2 unused_there
      (λ f h. tt) two-Settles

fetch_page_hit_example :
    (t : BufferPool Drive) × (fetch_page drive 300 0 two_pages ≡ done (some 0) t)
    × Pinned two_pages t 0 0
    × (t.frames 0 ≡ pin (two_pages.frames 0))
    × (t.page_table ≡ two_pages.page_table)
    × (t.disk ≡ two_pages.disk)
fetch_page_hit_example = fetch_page_hit two_pages two-IsValid 0 0 pinned_there drive 300

new_page_lem_example :
    Ensures
      (new_page drive 300 two_pages)
      (Creates drive 300 drive-Serves Any Any-Kept two_pages two-IsValid unused_there)
      Aborted
new_page_lem_example =
    new_page_lem drive 300 drive-Serves Any Any-Kept two_pages two-IsValid unused_there (λ f h. tt)
      two-Settles

new_page-IsAccounted_example :
    Ensures (new_page drive 300 two_pages) (λ r t. IsValid t × IsAccounted t) (λ e t. IsValid t)
new_page-IsAccounted_example =
    new_page-IsAccounted drive 300 drive-Serves two_pages two-IsValid two-IsAccounted unused_there

pins_small : (f : ℕ) → resident two_pages 0 ≡ some f → (two_pages.frames f).pin_count + 1 < 2 ^ 32
pins_small f e = omega (arith, two-resident 0 f e)

fetch_page-IsAccounted_example :
    Ensures (fetch_page drive 300 0 two_pages) (λ r t. IsValid t × IsAccounted t) (λ e t. IsValid t)
fetch_page-IsAccounted_example =
    fetch_page-IsAccounted drive 300 drive-Serves two_pages two-IsValid two-IsAccounted 0 pins_small

unpin_page_lem_example :
    (unpin_page true 0 false two_pages
      ≡ done true (released_state two_pages two-IsValid 0 0 pinned_there false))
    × IsValid (released_state two_pages two-IsValid 0 0 pinned_there false)
unpin_page_lem_example =
    unpin_page_lem two_pages two-IsValid 0 0 pinned_there (omega arith) (omega arith) false true

-- A disk with two writes in flight.
abbrev busy_disk : DiskManager Drive
busy_disk = record { device = record { pending = 2; file = zeros }; next_page_id = 5 }

await_completion-Awaited_example :
    Ensures
      (await_completion drive 300 300 busy_disk)
      (Awaited drive 300 drive-Serves (Any 0) (Any-Kept 0) busy_disk)
      (λ _ _. ⊥)
await_completion-Awaited_example =
    await_completion-Awaited drive 300 drive-Serves (Any 0) (Any-Kept 0) busy_disk tt (omega arith)

dirty_there : resident two_pages 1 ≡ some 1
unfolding find ℕ_discrete
dirty_there = refl

flush_page-Flushed_example :
    (t : BufferPool Drive) × (flush_page drive 300 1 two_pages ≡ done true t)
    × Flushed drive-Stores two_pages two-IsValid two-IsClean 1 1 dirty_there t
flush_page-Flushed_example =
    flush_page-Flushed drive-Stores two_pages two-IsValid two-IsClean 1 1 dirty_there refl

two-HasEntries : HasEntries two_pages
unfolding find ℕ_discrete
two-HasEntries = (refl, (refl, tt))

flush_all_pages-WritesBack_example :
    Ensures
      (flush_all_pages drive 300 two_pages)
      (λ _ t. WritesBack drive-Stores two_pages t)
      (λ e t. (e ≡ queue_full) × IsFull drive-Stores t × Keeps drive-Stores two_pages t)
flush_all_pages-WritesBack_example =
    flush_all_pages-WritesBack drive-Stores two_pages two-IsValid two-IsClean two-HasEntries
