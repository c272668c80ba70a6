-- ===== src/Storage/BufferPool/New.antt =====
-- `new_page`.
use stingdb.Base.{
  ℕ, ◌+◌, ◌%◌, ◌^◌, ◌≤◌, ◌<◌, ◌≡◌, refl, ◌∙◌, inl, inr, false, [], Option, none, some, count, eq→==,
}
use stingdb.Base.Bytes.{zeros}
use stingdb.Base.Effect.{Ensures, Ensures-bind}
use stingdb.Storage.Page.{Page, reset_memory}
use stingdb.Storage.Disk.{Device, DiskManager, allocate_page}
use stingdb.Storage.Disk.Serves.{Serves, Kept}
use stingdb.Storage.BufferPool.{BufferPool, take_frame, new_in_frame, new_from, new_page}
use stingdb.Storage.BufferPool.Access.{get_frame-in, set_frame-in}
use stingdb.Storage.BufferPool.Invariant.{resident, IsValid}
use stingdb.Storage.BufferPool.Taken.{Taken, Aborted}
use stingdb.Storage.BufferPool.Evict.{Settles, Takes, take_frame-Takes}
use stingdb.Storage.BufferPool.Install.{Pinned, installed-Pinned}

module _ {D : Type 0} (io : Device D) (fuel : ℕ) (serves : Serves io fuel) (K : ℕ → D → Type 0)
    (kept : (f : ℕ) → Kept io (K f)) (s : BufferPool D) (v : IsValid s)
    (unused : resident s s.disk.next_page_id ≡ none) where
  abbrev pub created : ℕ → Page
  created q = record { bytes = zeros; page_id = q; pin_count = 1; is_dirty = false }

  -- The next page number is taken, and its blank page is pinned once; or all frames are pinned.
  abbrev pub Creates : Option (ℕ × ℕ) → BufferPool D → Type 0
  Creates none t = (t ≡ s) × (s.free_list ≡ []) × (s.lru_replacer ≡ [])
  Creates (some (q, f)) t =
      (q ≡ s.disk.next_page_id)
      × Pinned s t q f
      × (t.frames f ≡ created q)
      × (t.disk.next_page_id ≡ (q + 1) % 2 ^ 32)
      × K f t.disk.device
      × (serves.backlog t.disk.device ≤ serves.backlog s.disk.device)

  absent_after : {t : BufferPool D} {f : ℕ} → Taken s t f → resident t t.disk.next_page_id ≡ none
  absent_after {t} taken = elim (taken.table_eq s.disk.next_page_id) [
    | inl same ↦ rw taken.next_eq (same ∙ unused)
    | inr gone ↦ rw taken.next_eq gone.0
  ]

  new-Creates :
      (r : Option ℕ) (t : BufferPool D)
      → Takes io fuel serves K kept s v r t
      → Ensures (new_from io fuel r t) Creates Aborted
  unfolding new_from new_in_frame allocate_page reset_memory
  new-Creates none t w = w
  new-Creates (some f) t (taken, k, le) =
      let q = t.disk.next_page_id in
      let d : DiskManager D = record { device = t.disk.device; next_page_id = (q + 1) % 2 ^ 32 } in
      rw
        (
          get_frame-in f (record t { disk = d }) taken.in_pool,
          set_frame-in f (record t { disk = d }) taken.in_pool (created q),
        )
        (
          taken.next_eq,
          installed-Pinned s t f q (created q) d taken (absent_after taken) refl,
          rw (eq→== f f refl),
          refl,
          k,
          le,
        )

  -- `NewPage` of a well-formed pool, where the next page number is not in the pool, returns that
  -- number and a frame with its blank page, pinned once; or null with nothing changed, only if no
  -- frame is free and none can be evicted; or it throws and leaves the pool well formed. At most
  -- one other page leaves the pool, only if no frame is free, and what its eviction establishes of
  -- the device holds at the return.
  pub new_page_lem :
      ((f : ℕ) → 0 < count f s.free_list → K f s.disk.device)
      → ((f : ℕ) → 0 < count f s.lru_replacer → Settles io (K f) s f)
      → Ensures (new_page io fuel s) Creates Aborted
  unfolding new_page
  new_page_lem k ks =
      Ensures-bind (take_frame io fuel s) (new_from io fuel) (Takes io fuel serves K kept s v)
        Creates Aborted (take_frame-Takes io fuel serves K kept s v k ks) new-Creates
