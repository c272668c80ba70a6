-- ===== src/Storage/BufferPool/Evict.antt =====
-- `take_frame`: the frame that `FetchPage` and `NewPage` put a page into.
use native.Mathlib.Decide.{ℕ_discrete}
use stingdb.Base.{
  ℕ, ◌+◌, ◌≤◌, ◌<◌, ◌≡◌, refl, sym, subst, ap, inl, inr, true, false, List, [], ◌∷◌, Option, none,
  some, count, arith, lt→ltb, Bool-cases,
}
use stingdb.Base.Effect.{Error, Ensures, Ensures-bind, Ensures-weaken, Ensures-within}
use stingdb.Base.Table.{erase}
use stingdb.Storage.Page.{Page}
use stingdb.Storage.Disk.{Device, DiskManager, page_offset, write_page_async, await_completion}
use stingdb.Storage.Disk.Serves.{Serves, Kept, await_completion-Awaited, Awaited}
use stingdb.Storage.BufferPool.{
  BufferPool, get_frame, write_back, evict, take_frame, split_last, on_disk,
}
use stingdb.Storage.BufferPool.Invariant.{IsValid}
use stingdb.Storage.BufferPool.Taken.{
  Taken, Aborted, free-Taken, evicted, evicted-Taken, victim_listed, popped-IsValid,
}

-- What a proof follows on the device holds before the eviction of a clean frame, and after the
-- write of a dirty one was accepted.
pub record Settles {D : Type 0} (io : Device D) (K : D → Type 0) (s : BufferPool D) (f : ℕ)
    : Type 0 where
  pub clean : (s.frames f).is_dirty ≡ false → K s.disk.device
  pub dirty :
      (s.frames f).is_dirty ≡ true
      → io.get_sqe s.disk.device ≡ true
      → K (
          io.submit s.disk.device
            (page_offset (s.frames f).page_id)
            (s.frames f).bytes
            (s.frames f).page_id)

module _ {D : Type 0} (io : Device D) (fuel : ℕ) (serves : Serves io fuel) (K : ℕ → D → Type 0)
    (kept : (f : ℕ) → Kept io (K f)) (s : BufferPool D) (v : IsValid s) where
  abbrev Evicts : ℕ → List ℕ → Unit {0} → BufferPool D → Type 0
  Evicts f rest _ t =
      (d : DiskManager D) × (t ≡ evicted s v f rest d)
      × (d.next_page_id ≡ s.disk.next_page_id)
      × K f d.device
      × (serves.backlog d.device ≤ serves.backlog s.disk.device)

  abbrev Refuses : List ℕ → Error → BufferPool D → Type 0
  Refuses rest e t = t ≡ record s { lru_replacer = rest }

  write_back-Awaited :
      (f : ℕ) (p : Page) (t : BufferPool D)
      → (io.get_sqe t.disk.device ≡ true
          → K f (io.submit t.disk.device (page_offset p.page_id) p.bytes p.page_id))
      → Ensures
          (write_back io fuel p t)
          (λ _ u.
            (d : DiskManager D) × (u ≡ record t { disk = d })
            × (d.next_page_id ≡ t.disk.next_page_id)
            × K f d.device
            × (serves.backlog d.device ≤ serves.backlog t.disk.device))
          (λ _ u. u ≡ t)
  unfolding write_back write_page_async
  write_back-Awaited f p t k = elim (Bool-cases (io.get_sqe t.disk.device)) [
    | inl room ↦ rw room (waits (k room) (serves.submit_backlog t.disk.device _ _ _ room))
    | inr full ↦ rw full refl
  ]
    where
      written : DiskManager D
      written = record {
        device = io.submit t.disk.device (page_offset p.page_id) p.bytes p.page_id;
        next_page_id = t.disk.next_page_id;
      }

      waits :
          K f written.device
          → serves.backlog written.device ≡ serves.backlog t.disk.device + 1
          → Ensures
              (on_disk (await_completion io fuel fuel) (record t { disk = written }))
              (λ _ u.
                (d : DiskManager D) × (u ≡ record t { disk = d })
                × (d.next_page_id ≡ t.disk.next_page_id)
                × K f d.device
                × (serves.backlog d.device ≤ serves.backlog t.disk.device))
              (λ _ u. u ≡ t)
      waits kw accepted =
          Ensures-within (record t { disk = written }) (λ d. record t { disk = d })
            (await_completion io fuel fuel written)
            (λ _ u.
              (d : DiskManager D) × (u ≡ record t { disk = d })
              × (d.next_page_id ≡ t.disk.next_page_id)
              × K f d.device
              × (serves.backlog d.device ≤ serves.backlog t.disk.device))
            (λ _ u. u ≡ t)
            (Ensures-weaken (await_completion io fuel fuel written)
              (Awaited io fuel serves (K f) (kept f) written)
              (λ _ e.
                (d : DiskManager D) × (record t { disk = e } ≡ record t { disk = d })
                × (d.next_page_id ≡ t.disk.next_page_id)
                × K f d.device
                × (serves.backlog d.device ≤ serves.backlog t.disk.device))
              (λ _ _. ⊥) (λ _ e. record t { disk = e } ≡ t)
              (await_completion-Awaited io fuel serves (K f) (kept f) written kw
                (omega (arith, accepted)))
              (λ _ d (fewer, same, kd). (d, refl, same, kd, omega (arith, accepted)))
              (λ e d b. absurd b))

  evict-Evicts :
      (f : ℕ) (rest : List ℕ)
      → f < s.pool_size
      → Settles io (K f) s f
      → Ensures (evict io fuel f (record s { lru_replacer = rest })) (Evicts f rest) (Refuses rest)
  unfolding evict get_frame
  evict-Evicts f rest h k = elim (Bool-cases (s.frames f).is_dirty) [
    | inl dirty ↦
        simp (lt→ltb f s.pool_size h, dirty)
          (Ensures-bind (write_back io fuel (s.frames f) (record s { lru_replacer = rest })) _
            (λ _ u.
              (d : DiskManager D) × (u ≡ record s { lru_replacer = rest; disk = d })
              × (d.next_page_id ≡ s.disk.next_page_id)
              × K f d.device
              × (serves.backlog d.device ≤ serves.backlog s.disk.device))
            (Evicts f rest) (Refuses rest)
            (write_back-Awaited f (s.frames f) (record s { lru_replacer = rest }) (k.dirty dirty))
            (λ _ u (d, e, same, kd, le). (
              d,
              ap
                  (λ (b : BufferPool D). record b {
                    page_table = erase ℕ_discrete (s.frames f).page_id b.page_table;
                  })
                  e,
              same,
              kd,
              le,
            )))
    | inr clean ↦
        simp (lt→ltb f s.pool_size h, clean) (s.disk, refl, refl, k.clean clean, omega arith)
  ]

  -- What `take_frame` does: it takes a frame, or it finds every frame pinned and changes nothing.
  abbrev pub Takes : Option ℕ → BufferPool D → Type 0
  Takes none t = (t ≡ s) × (s.free_list ≡ []) × (s.lru_replacer ≡ [])
  Takes (some f) t =
      Taken s t f
      × K f t.disk.device
      × (serves.backlog t.disk.device ≤ serves.backlog s.disk.device)

  take_cases :
      (free lru : List ℕ)
      → s.free_list ≡ free
      → s.lru_replacer ≡ lru
      → ((f : ℕ) → 0 < count f s.free_list → K f s.disk.device)
      → ((f : ℕ) → 0 < count f s.lru_replacer → Settles io (K f) s f)
      → Ensures (take_frame io fuel s) Takes Aborted
  unfolding take_frame
  take_cases (f ∷ fs) lru e l k ks =
      rw (e, take_frame) (free-Taken s v f fs e, k f (rw e (ground arith)), omega arith)
  take_cases [] [] e l k ks = rw (e, l, take_frame) (refl, e, l)
  take_cases [] (g ∷ gs) e l k ks =
      rw (e, l, take_frame)
        (Ensures-bind
          (evict io fuel (split_last g gs).0 (record s { lru_replacer = (split_last g gs).1 })) _
          (Evicts (split_last g gs).0 (split_last g gs).1) Takes Aborted
          (Ensures-weaken _ (Evicts (split_last g gs).0 (split_last g gs).1)
            (Evicts (split_last g gs).0 (split_last g gs).1) (Refuses (split_last g gs).1) Aborted
            (evict-Evicts (split_last g gs).0 (split_last g gs).1
              (evicted-Taken s v g gs e l s.disk refl).in_pool
              (ks (split_last g gs).0 (victim_listed s v g gs e l s.disk refl)))
            (λ _ _ w. w) (λ _ t w. subst IsValid (sym w) (popped-IsValid s v g gs e l s.disk refl)))
          (λ _ t (d, eq, same, kd, le).
            subst (Takes (some (split_last g gs).0)) (sym eq)
              (evicted-Taken s v g gs e l d same, kd, le)))

  pub take_frame-Takes :
      ((f : ℕ) → 0 < count f s.free_list → K f s.disk.device)
      → ((f : ℕ) → 0 < count f s.lru_replacer → Settles io (K f) s f)
      → Ensures (take_frame io fuel s) Takes Aborted
  take_frame-Takes k ks = take_cases s.free_list s.lru_replacer refl refl k ks
