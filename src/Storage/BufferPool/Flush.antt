-- ===== src/Storage/BufferPool/Flush.antt =====
-- `flush_page`.
use native.Mathlib.Decide.{ℕ_discrete}
use stingdb.Base.{
  ℕ, ◌+◌, ◌*◌, ◌≤◌, ◌<◌, ◌≡◌, refl, sym, ◌∙◌, ap, inl, inr, true, false, some, arith, Bool-cases,
  Option-cases, some_injective, eq→==, ne→==,
}
use stingdb.Base.Effect.{done, thrown, queue_full}
use stingdb.Storage.Page.{Page, set_dirty}
use stingdb.Storage.Disk.{Device, page_offset, write_page_async}
use stingdb.Storage.Disk.Serves.{Serves, Stores}
use stingdb.Storage.BufferPool.{BufferPool, update, flush_frame, flush_page}
use stingdb.Storage.BufferPool.Access.{get_frame-in, set_frame-in}
use stingdb.Storage.BufferPool.Invariant.{resident, IsValid}
use stingdb.Storage.BufferPool.Contents.{
  block, contents, IsClean, target_in, target_other, target_same, Synced-written,
}

module _ {D : Type 0} {io : Device D} {fuel : ℕ} {serves : Serves io fuel}
    (stores : Stores io fuel serves) (s : BufferPool D) (v : IsValid s) (clean : IsClean stores s)
    (q f : ℕ) (there : resident s q ≡ some f) where
  in_pool : f < s.pool_size
  in_pool = (v.table_in q f there).0

  named : (s.frames f).page_id ≡ q
  named = (v.table_in q f there).1

  -- What a flush leaves: the file is to hold the page, and the pool is as it was.
  abbrev pub Flushed : BufferPool D → Type 0
  Flushed t =
      ((t.frames f).is_dirty ≡ false)
      × IsValid t
      × ((p i : ℕ) → i < 8192 → contents stores t p i ≡ contents stores s p i)
      × IsClean stores t
      × (serves.backlog t.disk.device ≤ serves.backlog s.disk.device + 1)

  pub flush_frame_clean : (s.frames f).is_dirty ≡ false → flush_frame io fuel q f s ≡ done tt s
  unfolding flush_frame
  flush_frame_clean idle = rw (get_frame-in f s in_pool, flush_frame, idle) refl

  pub flush_frame_full :
      (s.frames f).is_dirty ≡ true
      → io.get_sqe s.disk.device ≡ false
      → flush_frame io fuel q f s ≡ thrown queue_full s
  unfolding flush_frame write_page_async
  flush_frame_full dirty full = rw (get_frame-in f s in_pool, flush_frame, dirty, full) refl

  module _ (room : io.get_sqe s.disk.device ≡ true) where
    abbrev written : D
    written = io.submit s.disk.device (page_offset q) (s.frames f).bytes q

    abbrev pub flushed : BufferPool D
    flushed = record s {
      frames = update s.frames f (set_dirty false (s.frames f));
      disk = record (s.disk) { device = written };
    }

    same_frame :
        (g : ℕ)
        → ((flushed.frames g).page_id ≡ (s.frames g).page_id)
          × ((flushed.frames g).pin_count ≡ (s.frames g).pin_count)
          × ((i : ℕ) → (flushed.frames g).bytes i ≡ (s.frames g).bytes i)
    unfolding set_dirty
    same_frame g = elim (ℕ_discrete g f) [
      | yes same ↦ rw (same, eq→== f f refl) (refl, refl, λ i. refl)
      | no ne ↦ rw (ne→== g f ne) (refl, refl, λ i. refl)
    ]

    pub flushed-IsValid : IsValid flushed
    flushed-IsValid = record {
      table_in = λ p g h. ((v.table_in p g h).0, (same_frame g).0 ∙ (v.table_in p g h).1);
      free_in = v.free_in;
      lru_in = λ g h. (
        ap (resident s) (same_frame g).0 ∙ (v.lru_in g h).0,
        (same_frame g).1 ∙ (v.lru_in g h).1,
      );
      once = v.once;
    }

    block-flushed :
        (p i : ℕ)
        → i < 8192
        → block stores flushed p i ≡ target_in stores s v clean f (resident s p) p i
    block-flushed p i h =
        ap
          (λ x.
            stores.settled (io.submit s.disk.device (page_offset x) (s.frames f).bytes x)
              (p * 8192 + i))
          (sym named)
        ∙ Synced-written stores s v clean f (ap (resident s) named ∙ there) room p i h

    pub contents-flushed :
        (p i : ℕ) → i < 8192 → contents stores flushed p i ≡ contents stores s p i
    contents-flushed p i h = elim (Option-cases (resident s p)) [
      | inl out ↦ rw out (block-flushed p i h ∙ target_other stores s v clean f p i (λ e. cc))
      | inr (g, at) ↦ rw at ((same_frame g).2 i)
    ]

    pub flushed-IsClean : IsClean stores flushed
    flushed-IsClean p g i h e c = elim (ℕ_discrete g f) [
      | yes same ↦
          (same_frame g).2 i
          ∙ ap (λ x. (s.frames x).bytes i) same
          ∙ sym (target_same stores s v clean f p i (e ∙ ap some same))
          ∙ sym (block-flushed p i h)
      | no ne ↦
          let other : flushed.frames g ≡ s.frames g = rw (ne→== g f ne) refl in
          (same_frame g).2 i
          ∙ clean p g i h e (ap (λ (x : Page). x.is_dirty) (sym other) ∙ c)
          ∙ sym (target_other stores s v clean f p i (λ e'. ne (some_injective g f (sym e ∙ e'))))
          ∙ sym (block-flushed p i h)
    ]

    pub clean_now : (flushed.frames f).is_dirty ≡ false
    unfolding set_dirty
    clean_now = rw (eq→== f f refl) refl

    pub flush_frame_dirty :
        (s.frames f).is_dirty ≡ true → flush_frame io fuel q f s ≡ done tt flushed
    unfolding flush_frame write_page_async
    flush_frame_dirty dirty =
        rw
          (
            get_frame-in f s in_pool,
            flush_frame,
            dirty,
            room,
            set_frame-in f (record s { disk = record (s.disk) { device = written } }) in_pool,
          )
          refl

    call_dirty : (s.frames f).is_dirty ≡ true → flush_page io fuel q s ≡ done true flushed
    unfolding flush_page
    call_dirty dirty = rw (there, flush_page, flush_frame_dirty dirty) refl

    -- `FlushPage` of a page in a well-formed pool whose clean pages are as in the file, with room
    -- in the ring, returns true: the page is no longer dirty, the file is to hold its bytes, and no
    -- page's contents change. At most one more write is in flight.
    pub flush_page-Flushed : (t : BufferPool D) × (flush_page io fuel q s ≡ done true t) × Flushed t
    unfolding flush_page flush_frame
    flush_page-Flushed = elim (Bool-cases (s.frames f).is_dirty) [
      | inl dirty ↦ (
        flushed,
        call_dirty dirty,
        (
          clean_now,
          flushed-IsValid,
          contents-flushed,
          flushed-IsClean,
          omega (
            arith,
            serves.submit_backlog s.disk.device (page_offset q) (s.frames f).bytes q room,
          ),
        ),
      )
      | inr idle ↦ (
        s,
        rw (there, flush_page, get_frame-in f s in_pool, idle) refl,
        (idle, v, λ p i h. refl, clean, omega arith),
      )
    ]
