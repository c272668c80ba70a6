-- ===== src/Storage/Disk.antt =====
-- src/storage/disk/disk_manager.h and disk_manager.cpp. The file and the io_uring are a parameter.
pub mod Serves
pub mod Open
use stingdb.Base.{
  ℕ, zero, suc, ◌+◌, ◌-◌, ◌*◌, ◌%◌, ◌^◌, Bool, true, false, List, Option, none, some, ltb, ◌==◌,
  if◌then◌else◌, length, replicate,
}
use stingdb.Base.Bytes.{Bytes, store}
use stingdb.Base.Effect.{
  Error, read_failed, queue_full, Eff, Outcome, done, thrown, fault, bind, ◌>>=◌, ◌>>◌, get_state,
  put_state,
}
use stingdb.Storage.Page.{page_size}

-- The system calls on the open file and its ring, whose state is `D`. `pread` gives the bytes read,
-- or nothing on an error. `submit` is `io_uring_prep_write`, `io_uring_sqe_set_data64` and
-- `io_uring_submit` on the entry that `io_uring_get_sqe` found; it takes the offset, the bytes that
-- the buffer holds until the write completes, and the user data. `peek` says whether a completion is
-- at hand; time goes on under it.
pub record Device (D : Type 0) : Type 0 where
  pub pread : D → ℕ → ℕ → Option (List ℕ)
  pub get_sqe : D → Bool
  pub submit : D → ℕ → Bytes → ℕ → D
  pub peek_cqe : D → Bool × D
  pub cq_advance : D → D

pub record DiskManager (D : Type 0) : Type 0 where
  pub device : D
  pub next_page_id : ℕ

-- Where a page lies in the file; an `off_t` has 64 bits, so the product does not wrap.
abbrev pub page_offset : ℕ → ℕ
page_offset page_id = page_id * page_size

-- What a buffer holds after a read of `bs`: a short read is filled up with zeros.
unfoldable pub filled : Bytes → List ℕ → Bytes
filled buffer bs =
    if ltb (length bs) page_size
    then store (store buffer 0 bs) (length bs) (replicate (page_size - length bs) 0)
    else store buffer 0 bs

module _ {D : Type 0} (io : Device D) where
  open io use {pread, get_sqe, submit, peek_cqe, cq_advance}

  -- The buffer is passed in, and its new bytes are returned.
  unfoldable pub read_page : ℕ → Bytes → Eff (DiskManager D) Bytes
  read_page page_id buffer s = elim (pread s.device (page_offset page_id) page_size) [
    | none ↦ thrown read_failed s
    | some bs ↦ done (filled buffer bs) s
  ]

  unfoldable pub write_page_async : ℕ → Bytes → Eff (DiskManager D) (Unit {0})
  write_page_async page_id buffer s =
      if get_sqe s.device
      then done tt (record s { device = submit s.device (page_offset page_id) buffer page_id })
      else thrown queue_full s

  -- The loop with `completions` so far; a failed write is only reported on the console.
  unfoldable pub reap : ℕ → ℕ → Eff (DiskManager D) ℕ
  reap zero completions s = fault
  reap (suc fuel) completions s =
      let polled = peek_cqe s.device in
      let rest = reap fuel (completions + 1) (record s { device = cq_advance polled.1 }) in
      if polled.0 then rest else done completions (record s { device = polled.1 })

  unfoldable pub retrieve_async_completions : ℕ → Eff (DiskManager D) ℕ
  retrieve_async_completions fuel = reap fuel 0

  -- `while (RetrieveAsyncCompletions() == 0) {}`
  unfoldable pub await_completion : ℕ → ℕ → Eff (DiskManager D) (Unit {0})
  await_completion fuel zero s = fault
  await_completion fuel (suc rounds) s = bind (retrieve_async_completions fuel s) λ completions t.
      let rest = await_completion fuel rounds t in if completions == 0 then rest else done tt t

-- `fetch_add` on the `uint32_t` counter.
unfoldable pub allocate_page : {D : Type 0} → Eff (DiskManager D) ℕ
allocate_page s = done s.next_page_id (record s { next_page_id = (s.next_page_id + 1) % 2 ^ 32 })
