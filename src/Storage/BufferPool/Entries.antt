-- ===== src/Storage/BufferPool/Entries.antt =====
-- The page table of the pool has one entry for each page, as a map has.
use native.Mathlib.Decide.{ℕ_discrete}
use stingdb.Base.{
  ℕ, ◌≡◌, refl, Bool, true, false, List, [], ◌∷◌, Option, none, some, ltb, inl, inr, Bool-cases,
  Option-cases, if◌then◌else◌,
}
use stingdb.Base.Effect.{Outcome, Leaves, Leaves-bind, Leaves-within, pure, within}
use stingdb.Base.Table.{find, HasOnce, insert-HasOnce, erase-HasOnce}
use stingdb.Storage.Page.{Page, reset_memory}
use stingdb.Storage.Disk.{
  Device, DiskManager, write_page_async, await_completion, read_page, allocate_page,
}
use stingdb.Storage.BufferPool.{
  BufferPool, get_frame, set_frame, fetch_hit, write_back, evict, take_frame, split_last,
  load_frame, fetch_page, new_in_frame, new_page, pin, fetch_miss, new_from,
}

module _ {D : Type 0} where
  abbrev pub HasEntries : BufferPool D → Type 0
  HasEntries s = HasOnce ℕ_discrete s.page_table

  get_frame-Leaves :
      (P : BufferPool D → Type 0) (f : ℕ) (s : BufferPool D) → P s → Leaves P (get_frame f s)
  unfolding get_frame
  get_frame-Leaves P f s h = elim (Bool-cases (ltb f s.pool_size)) [
    | inl e ↦ rw (e, get_frame) h
    | inr e ↦ rw (e, get_frame) tt
  ]

  set_frame-Leaves :
      (f : ℕ) (p : Page) (s : BufferPool D) → HasEntries s → Leaves HasEntries (set_frame f p s)
  unfolding set_frame
  set_frame-Leaves f p s h = elim (Bool-cases (ltb f s.pool_size)) [
    | inl e ↦ rw (e, set_frame) h
    | inr e ↦ rw (e, set_frame) tt
  ]

  on_disk-Leaves :
      {A : Type 0} (s : BufferPool D) (o : Outcome (DiskManager D) A)
      → HasEntries s
      → Leaves HasEntries (within s (λ d. record s { disk = d }) o)
  on_disk-Leaves s o h = Leaves-within HasEntries s (λ d. record s { disk = d }) o (λ d. h)

  fetch_hit-HasEntries :
      (f : ℕ) (s : BufferPool D) → HasEntries s → Leaves HasEntries (fetch_hit f s)
  unfolding fetch_hit
  fetch_hit-HasEntries f s h =
      Leaves-bind HasEntries (get_frame f s) _ (get_frame-Leaves HasEntries f s h) λ page t k.
        Leaves-bind HasEntries (set_frame f (pin page) t) _ (set_frame-Leaves f (pin page) t k)
          λ _ u l. l

module _ {D : Type 0} (io : Device D) (fuel : ℕ) where
  write_back-HasEntries :
      (victim : Page) (s : BufferPool D)
      → HasEntries s
      → Leaves HasEntries (write_back io fuel victim s)
  unfolding write_back
  write_back-HasEntries victim s h =
      Leaves-bind HasEntries (within s _ (write_page_async io victim.page_id victim.bytes s.disk)) _
        (on_disk-Leaves s (write_page_async io victim.page_id victim.bytes s.disk) h)
        λ _ t k. on_disk-Leaves t (await_completion io fuel fuel t.disk) k

  maybe_written :
      (is_dirty : Bool) (victim : Page) (s : BufferPool D)
      → HasEntries s
      → Leaves HasEntries ((if is_dirty then write_back io fuel victim else pure tt) s)
  maybe_written true victim s h = write_back-HasEntries victim s h
  maybe_written false victim s h = h

  evict-HasEntries :
      (f : ℕ) (s : BufferPool D) → HasEntries s → Leaves HasEntries (evict io fuel f s)
  unfolding evict
  evict-HasEntries f s h =
      Leaves-bind HasEntries (get_frame f s) _ (get_frame-Leaves HasEntries f s h) λ victim t k.
        Leaves-bind HasEntries ((if victim.is_dirty then write_back io fuel victim else pure tt) t)
          _ (maybe_written victim.is_dirty victim t k)
          λ _ u l. erase-HasOnce ℕ_discrete victim.page_id u.page_table l

  take_frame-HasEntries :
      (s : BufferPool D) → HasEntries s → Leaves HasEntries (take_frame io fuel s)
  unfolding take_frame
  take_frame-HasEntries s h = taken s.free_list s.lru_replacer refl refl
    where
      taken :
          (free lru : List ℕ)
          → s.free_list ≡ free
          → s.lru_replacer ≡ lru
          → Leaves HasEntries (take_frame io fuel s)
      taken (f ∷ fs) lru e l = rw (e, take_frame) h
      taken [] [] e l = rw (e, take_frame, l) h
      taken [] (g ∷ gs) e l =
          rw (e, take_frame, l)
            (Leaves-bind HasEntries
              (evict io fuel (split_last g gs).0 (record s { lru_replacer = (split_last g gs).1 }))
              _
              (evict-HasEntries (split_last g gs).0
                (record s { lru_replacer = (split_last g gs).1 }) h)
              λ _ t k. k)

  load_frame-HasEntries :
      (page_id f : ℕ) (s : BufferPool D)
      → HasEntries s
      → Leaves HasEntries (load_frame io fuel page_id f s)
  unfolding load_frame
  load_frame-HasEntries page_id f s h =
      Leaves-bind HasEntries (get_frame f s) _ (get_frame-Leaves HasEntries f s h) λ page t k.
        Leaves-bind HasEntries (set_frame f (reset_memory page) t) _
          (set_frame-Leaves f (reset_memory page) t k)
          λ _ u l.
            Leaves-bind HasEntries
              (within u _ (read_page io page_id (reset_memory page).bytes u.disk)) _
              (on_disk-Leaves u (read_page io page_id (reset_memory page).bytes u.disk) l)
              λ bytes v m.
                Leaves-bind HasEntries (set_frame f _ v) _ (set_frame-Leaves f _ v m)
                  λ _ w n. insert-HasOnce ℕ_discrete page_id f w.page_table n

  new_in_frame-HasEntries :
      (f : ℕ) (s : BufferPool D) → HasEntries s → Leaves HasEntries (new_in_frame io fuel f s)
  unfolding new_in_frame
  new_in_frame-HasEntries f s h =
      Leaves-bind HasEntries (within s _ (allocate_page s.disk)) _
        (on_disk-Leaves s (allocate_page s.disk) h)
        λ page_id t k.
          Leaves-bind HasEntries (get_frame f t) _ (get_frame-Leaves HasEntries f t k) λ page u l.
            Leaves-bind HasEntries (set_frame f _ u) _ (set_frame-Leaves f _ u l)
              λ _ v m. insert-HasOnce ℕ_discrete page_id f v.page_table m

  fetch_miss-HasEntries :
      (page_id : ℕ) (f : Option ℕ) (s : BufferPool D)
      → HasEntries s
      → Leaves HasEntries (fetch_miss io fuel page_id f s)
  unfolding fetch_miss
  fetch_miss-HasEntries page_id none s h = h
  fetch_miss-HasEntries page_id (some f) s h = load_frame-HasEntries page_id f s h

  new_from-HasEntries :
      (f : Option ℕ) (s : BufferPool D) → HasEntries s → Leaves HasEntries (new_from io fuel f s)
  unfolding new_from
  new_from-HasEntries none s h = h
  new_from-HasEntries (some f) s h = new_in_frame-HasEntries f s h

  pub fetch_page-HasEntries :
      (page_id : ℕ) (s : BufferPool D)
      → HasEntries s
      → Leaves HasEntries (fetch_page io fuel page_id s)
  unfolding fetch_page
  fetch_page-HasEntries page_id s h = elim (Option-cases (find ℕ_discrete page_id s.page_table)) [
    | inr (f, e) ↦ rw (e, fetch_page) (fetch_hit-HasEntries f s h)
    | inl e ↦
        rw (e, fetch_page)
          (Leaves-bind HasEntries (take_frame io fuel s) _ (take_frame-HasEntries s h)
            (fetch_miss-HasEntries page_id))
  ]

  pub new_page-HasEntries :
      (s : BufferPool D) → HasEntries s → Leaves HasEntries (new_page io fuel s)
  unfolding new_page
  new_page-HasEntries s h =
      Leaves-bind HasEntries (take_frame io fuel s) _ (take_frame-HasEntries s h)
        new_from-HasEntries
