-- ===== src/Execution/Blank.antt =====
-- A pool that has never held a page, and the first page made in it.
use stingdb.Base.{
  ℕ, suc, ◌+◌, ◌%◌, ◌^◌, ◌<◌, ◌≡◌, ◌≢◌, refl, false, List, ◌∷◌, none, some, arith, eq→==,
}
use stingdb.Base.Bytes.{zeros}
use stingdb.Base.Effect.{done}
use stingdb.Base.Table.{find}
use stingdb.Storage.Page.{Page, reset_memory}
use stingdb.Storage.Disk.{Device, DiskManager, allocate_page}
use stingdb.Storage.BufferPool.{
  BufferPool, create, frame_numbers, new_page, take_frame, new_from, new_in_frame,
}
use stingdb.Storage.BufferPool.Access.{get_frame-in, set_frame-in}
use stingdb.Storage.BufferPool.Invariant.{resident, IsValid, create-IsValid}
use stingdb.Storage.BufferPool.Taken.{Taken, free-Taken}
use stingdb.Storage.BufferPool.Install.{Pinned, installed, installed-Pinned}
use stingdb.Storage.BufferPool.Held.{Held}

-- No page is in the pool, a frame is free, and the next page number is a valid one.
pub record IsBlank {D : Type 0} (s : BufferPool D) : Type 0 where
  pub valid : IsValid s
  pub nothing : (q : ℕ) → resident s q ≡ none
  pub frame : (f : ℕ) × (fs : List ℕ) × (s.free_list ≡ f ∷ fs)
  pub numbered : s.disk.next_page_id < 0xffff_ffff

pub create-IsBlank :
    {D : Type 0} (size : ℕ) (disk : DiskManager D)
    → disk.next_page_id < 0xffff_ffff
    → IsBlank (create (suc size) disk)
create-IsBlank size disk h = record {
  valid = create-IsValid (suc size) disk;
  nothing = λ q. unfold create find in refl;
  frame = unfold create frame_numbers in (0, frame_numbers 1 size, refl);
  numbered = unfold create in h;
}

-- The new page takes the first free frame, blank and with one pin.
pub new_page-Held :
    {D : Type 0} (s : BufferPool D)
    → IsBlank s
    → (io : Device D) (fuel : ℕ)
    → (q : ℕ) × (f : ℕ) × (t : BufferPool D) × (new_page io fuel s ≡ done (some (q, f)) t)
      × Held q f 1 zeros t
      × (q ≢ 0xffff_ffff)
unfolding new_page take_frame new_from new_in_frame allocate_page reset_memory
new_page-Held {D} s blank io fuel =
    let q : ℕ = s.disk.next_page_id in
    (
      q,
      f,
      installed s rest f q page next taken (blank.nothing q) refl,
      rw
          (
            e,
            take_frame,
            get_frame-in f (record rest { disk = next }) taken.in_pool,
            set_frame-in f (record rest { disk = next }) taken.in_pool page,
          )
          refl,
      record {
        valid = pinned.valid;
        mapped = pinned.mapped;
        pins = rw (eq→== f f refl) refl;
        holds = rw (eq→== f f refl) refl;
      },
      λ same. omega (arith, same, blank.numbered),
    )
  where
    f : ℕ
    f = blank.frame.0

    e : s.free_list ≡ f ∷ blank.frame.1
    e = blank.frame.2

    rest : BufferPool D
    rest = record s { free_list = blank.frame.1 }

    taken : Taken s rest f
    taken = free-Taken s blank.valid f blank.frame.1 e

    page : Page
    page = record { bytes = zeros; page_id = s.disk.next_page_id; pin_count = 1; is_dirty = false }

    next : DiskManager D
    next = record (s.disk) { next_page_id = (s.disk.next_page_id + 1) % 2 ^ 32 }

    pinned :
        Pinned s
          (installed s rest f s.disk.next_page_id page next taken
            (blank.nothing s.disk.next_page_id)
            refl)
          s.disk.next_page_id
          f
    pinned =
        installed-Pinned s rest f s.disk.next_page_id page next taken
          (blank.nothing s.disk.next_page_id) refl
