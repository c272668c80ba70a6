-- ===== src/Storage/BufferPool.antt =====
-- src/storage/buffer_pool/buffer_pool_manager.h and buffer_pool_manager.cpp. Each call holds the
-- latch from its start to its end, so calls are taken one after the other.
pub mod Frames
pub mod Access
pub mod Invariant
pub mod Taken
pub mod Evict
pub mod Install
pub mod Hit
pub mod Fetch
pub mod New
pub mod Unpin
pub mod Held
pub mod Accounted
pub mod Contents
pub mod Preserve
pub mod Flush
pub mod Entries
pub mod FlushEntries
pub mod FlushAll
use native.Mathlib.Decide.{ℕ_discrete}
use stingdb.Base.{
  ℕ, zero, suc, ◌+◌, ◌-◌, ◌%◌, ◌^◌, ◌<◌, Bool, true, false, List, [], ◌∷◌, Option, none, some, ltb,
  ◌==◌, ◌&&◌, not, if◌then◌else◌,
}
use stingdb.Base.Bytes.{Bytes, zeros}
use stingdb.Base.Effect.{
  Eff, Outcome, done, thrown, fault, pure, throw, bind, ◌>>=◌, ◌>>◌, get_state, put_state, within,
}
use stingdb.Base.Table.{find, insert, erase}
use stingdb.Storage.Page.{Page, blank, set_dirty, reset_memory}
use stingdb.Storage.Disk.{
  Device, DiskManager, read_page, write_page_async, retrieve_async_completions, await_completion,
  allocate_page,
}

-- `frames` is the array `pages_` of `pool_size` pages; a `Page*` is a frame number.
pub record BufferPool (D : Type 0) : Type 0 where
  pub pool_size : ℕ
  pub frames : ℕ → Page
  pub page_table : List (ℕ × ℕ)
  pub lru_replacer : List ℕ
  pub free_list : List ℕ
  pub disk : DiskManager D

-- `std::list::remove`
unfoldable pub remove : ℕ → List ℕ → List ℕ
remove f [] = []
remove f (g ∷ gs) = let rest = remove f gs in if g == f then rest else g ∷ rest

-- `back` and `pop_back` of a list that is not empty.
unfoldable pub split_last : ℕ → List ℕ → ℕ × List ℕ
split_last f [] = (f, [])
split_last f (g ∷ gs) = let (last, front) = split_last g gs in (last, f ∷ front)

abbrev pub update : (ℕ → Page) → ℕ → Page → ℕ → Page
update frames f p g = if g == f then p else frames g

-- `fetch_add` and `fetch_sub` on the `int` counter, as bit patterns.
abbrev pub pin : Page → Page
pin p = record p { pin_count = (p.pin_count + 1) % 2 ^ 32 }

abbrev pub unpin : Page → Page
unpin p = record p { pin_count = (p.pin_count + 2 ^ 32 - 1) % 2 ^ 32 }

-- `previous_pin_count > 0`
abbrev pub is_positive : ℕ → Bool
is_positive n = ltb 0 n && ltb n (2 ^ 31)

unfoldable pub frame_numbers : ℕ → ℕ → List ℕ
frame_numbers i zero = []
frame_numbers i (suc left) = i ∷ frame_numbers (i + 1) left

module _ {D : Type 0} where
  -- The constructor.
  unfoldable pub create : ℕ → DiskManager D → BufferPool D
  create pool_size disk = record {
    pool_size = pool_size;
    frames = λ f. blank;
    page_table = [];
    lru_replacer = [];
    free_list = frame_numbers 0 pool_size;
    disk = disk;
  }

  -- Reading and writing through `&pages_[f]`.
  unfoldable pub get_frame : ℕ → Eff (BufferPool D) Page
  get_frame f s = if ltb f s.pool_size then done (s.frames f) s else fault

  unfoldable pub set_frame : ℕ → Page → Eff (BufferPool D) (Unit {0})
  set_frame f p s =
      if ltb f s.pool_size then done tt (record s { frames = update s.frames f p }) else fault

  -- A call of the disk manager.
  abbrev pub on_disk : {A : Type 0} → Eff (DiskManager D) A → Eff (BufferPool D) A
  on_disk m s = within s (λ d. record s { disk = d }) (m s.disk)

  -- A page that is in the pool: the first branch of `FetchPage`.
  unfoldable pub fetch_hit : ℕ → Eff (BufferPool D) (Option ℕ)
  fetch_hit f = do
    page ← get_frame f
    set_frame f (pin page)
    s ← get_state
    put_state (record s { lru_replacer = remove f s.lru_replacer })
    pure (some f)

  -- `asserts` says whether the build keeps `assert`, which a release build does not.
  unfoldable pub unpin_frame : Bool → ℕ → Bool → Eff (BufferPool D) Bool
  unpin_frame asserts f is_dirty = do
    page ← get_frame f
    let marked = if is_dirty then set_dirty true page else page
    set_frame f (unpin marked)
    s ← get_state
    if asserts && not (is_positive page.pin_count) then (λ _. fault) else do
      put_state (if page.pin_count == 1 then record s { lru_replacer = f ∷ s.lru_replacer } else s)
      pure true

  unfoldable pub unpin_page : Bool → ℕ → Bool → Eff (BufferPool D) Bool
  unfolding unpin_frame
  unpin_page asserts page_id is_dirty s = elim (find ℕ_discrete page_id s.page_table) [
    | none ↦ done false s
    | some f ↦ unpin_frame asserts f is_dirty s
  ]

  -- Left for a later version.
  unfoldable pub delete_page : ℕ → Eff (BufferPool D) Bool
  delete_page page_id = pure false

module _ {D : Type 0} (io : Device D) (fuel : ℕ) where
  -- The write of a dirty victim, waited for.
  unfoldable pub write_back : Page → Eff (BufferPool D) (Unit {0})
  write_back victim = do
    on_disk (write_page_async io victim.page_id victim.bytes)
    on_disk (await_completion io fuel fuel)

  -- The victim is written back if it is dirty, and leaves the page table.
  unfoldable pub evict : ℕ → Eff (BufferPool D) (Unit {0})
  evict f = do
    victim ← get_frame f
    if victim.is_dirty then write_back victim else pure tt
    s ← get_state
    put_state (record s { page_table = erase ℕ_discrete victim.page_id s.page_table })

  -- A frame from the free list, or else the one unpinned longest ago; `none` if all are pinned.
  unfoldable pub take_frame : Eff (BufferPool D) (Option ℕ)
  unfolding evict
  take_frame s = elim s.free_list [
    | f ∷ fs ↦ done (some f) (record s { free_list = fs })
    | [] ↦ elim s.lru_replacer [
      | [] ↦ done none s
      | g ∷ gs ↦
          let (f, front) = split_last g gs in
          bind (evict f (record s { lru_replacer = front })) (λ _. done (some f))
    ]
  ]

  -- Steps 3 and 4 of `FetchPage`.
  unfoldable pub load_frame : ℕ → ℕ → Eff (BufferPool D) (Option ℕ)
  load_frame page_id f = do
    page ← get_frame f
    set_frame f (reset_memory page)
    bytes ← on_disk (read_page io page_id (reset_memory page).bytes)
    set_frame f (record { bytes = bytes; page_id = page_id; pin_count = 1; is_dirty = false })
    s ← get_state
    put_state (record s { page_table = insert ℕ_discrete page_id f s.page_table })
    pure (some f)

  fetch_miss : ℕ → Option ℕ → Eff (BufferPool D) (Option ℕ)
  unfolding load_frame
  fetch_miss page_id none = pure none
  fetch_miss page_id (some f) = load_frame page_id f

  -- `none` is `nullptr`.
  unfoldable pub fetch_page : ℕ → Eff (BufferPool D) (Option ℕ)
  unfolding fetch_hit take_frame fetch_miss
  fetch_page page_id s = elim (find ℕ_discrete page_id s.page_table) [
    | some f ↦ fetch_hit f s
    | none ↦ bind (take_frame s) (fetch_miss page_id)
  ]

  -- From the allocation of the page number on.
  unfoldable pub new_in_frame : ℕ → Eff (BufferPool D) (Option (ℕ × ℕ))
  new_in_frame f = do
    page_id ← on_disk allocate_page
    page ← get_frame f
    set_frame f (record {
      bytes = (reset_memory page).bytes;
      page_id = page_id;
      pin_count = 1;
      is_dirty = false;
    })
    s ← get_state
    put_state (record s { page_table = insert ℕ_discrete page_id f s.page_table })
    pure (some (page_id, f))

  unfoldable pub new_from : Option ℕ → Eff (BufferPool D) (Option (ℕ × ℕ))
  unfolding new_in_frame
  new_from none = pure none
  new_from (some f) = new_in_frame f

  -- The number that goes to `*first_page_id`, and the frame; `none` is `nullptr`.
  unfoldable pub new_page : Eff (BufferPool D) (Option (ℕ × ℕ))
  unfolding take_frame new_from
  new_page s = bind (take_frame s) new_from

  -- Submits a page's write if it is dirty; the write is not waited for.
  unfoldable pub flush_frame : ℕ → ℕ → Eff (BufferPool D) (Unit {0})
  flush_frame page_id f = do
    page ← get_frame f
    if page.is_dirty
        then (do
          on_disk (write_page_async io page_id page.bytes)
          set_frame f (set_dirty false page))
        else pure tt

  unfoldable pub flush_page : ℕ → Eff (BufferPool D) Bool
  unfolding flush_frame
  flush_page page_id s = elim (find ℕ_discrete page_id s.page_table) [
    | none ↦ done false s
    | some f ↦ bind (flush_frame page_id f s) (λ _. done true)
  ]

  unfoldable pub flush_entries : List (ℕ × ℕ) → Eff (BufferPool D) (Unit {0})
  unfolding flush_frame
  flush_entries [] = pure tt
  flush_entries ((page_id, f) ∷ rest) = do flush_frame page_id f; flush_entries rest

  -- The loop at the end, `while (RetrieveAsyncCompletions() < 0)`, runs once: the count is not
  -- negative.
  unfoldable pub flush_all_pages : Eff (BufferPool D) (Unit {0})
  unfolding flush_entries
  flush_all_pages = do
    s ← get_state
    flush_entries s.page_table
    completions ← on_disk (retrieve_async_completions io fuel)
    pure tt

module _ {D A : Type 0} where
  -- A call on the page in frame `f`, as on a `SlottedPage` made of `&pages_[f]`.
  unfoldable pub on_frame : ℕ → Eff Page A → Eff (BufferPool D) A
  on_frame f m s =
      if ltb f s.pool_size
      then within s (λ p. record s { frames = update s.frames f p }) (m (s.frames f))
      else fault
