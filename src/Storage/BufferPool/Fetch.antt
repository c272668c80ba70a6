-- ===== src/Storage/BufferPool/Fetch.antt =====
-- `fetch_page` of a page that is not in the pool, and `new_page`.
use stingdb.Base.{
  ℕ, ◌≤◌, ◌<◌, ◌≡◌, refl, sym, subst, ◌∙◌, ap, inl, inr, false, List, [], Option, none, some, count,
  arith, eq→==, ne→==,
}
use stingdb.Base.Bytes.{Bytes, zeros}
use stingdb.Base.Effect.{Ensures, Ensures-bind, Ensures-weaken}
use stingdb.Storage.Page.{Page, page_size, reset_memory}
use stingdb.Storage.Disk.{Device, page_offset, read_page, filled}
use stingdb.Storage.Disk.Serves.{Serves, Kept}
use stingdb.Storage.BufferPool.{BufferPool, update, take_frame, load_frame, fetch_miss, fetch_page}
use stingdb.Storage.BufferPool.Access.{get_frame-in, set_frame-in, update-update}
use stingdb.Storage.BufferPool.Invariant.{resident, IsValid}
use stingdb.Storage.BufferPool.Taken.{Taken, Aborted}
use stingdb.Storage.BufferPool.Evict.{Settles, Takes, take_frame-Takes}
use stingdb.Storage.BufferPool.Install.{Pinned, installed, installed-Pinned}

-- The frame that `load_frame` leaves behind when the read fails: a blank one that no list holds.
reset-IsValid :
    {D : Type 0} (s t : BufferPool D) (f : ℕ) (p : Page)
    → Taken s t f
    → IsValid (record t { frames = update t.frames f p })
reset-IsValid s t f p taken = record {
  table_in =
      λ q g h. rw (ne→== g f (λ e. taken.unmapped q (rw (← e) h))) (taken.valid.table_in q g h);
  free_in = taken.valid.free_in;
  lru_in = λ g h.
      rw
        (ne→== g f
          (λ e. absurd (omega (arith, taken.not_listed, ap (λ x. count x t.lru_replacer) e))))
        (taken.valid.lru_in g h);
  once = taken.valid.once;
}

module _ {D : Type 0} (io : Device D) (fuel : ℕ) (s t : BufferPool D) (f q : ℕ)
    (taken : Taken s t f) (new : resident t q ≡ none) where
  -- The page as it was read, once.
  abbrev pub fresh_page : Bytes → Page
  fresh_page bytes = record { bytes = bytes; page_id = q; pin_count = 1; is_dirty = false }

  -- What `load_frame` does, by the answer of the device.
  pub load_frame-cases :
      (bs : Option (List ℕ))
      → io.pread t.disk.device (page_offset q) page_size ≡ bs
      → Ensures
          (load_frame io fuel q f t)
          (λ r u.
            (b : List ℕ) × (r ≡ some f)
            × (bs ≡ some b)
            × (u ≡ installed s t f q (fresh_page (filled zeros b)) t.disk taken new refl))
          Aborted
  unfolding load_frame read_page reset_memory
  load_frame-cases none e =
      rw
        (
          get_frame-in f t taken.in_pool,
          set_frame-in f t taken.in_pool (reset_memory (t.frames f)),
          read_page,
          e,
        )
        (reset-IsValid s t f (reset_memory (t.frames f)) taken)
  load_frame-cases (some b) e =
      rw
        (
          get_frame-in f t taken.in_pool,
          set_frame-in f t taken.in_pool (reset_memory (t.frames f)),
          read_page,
          e,
          set_frame-in f (record t { frames = update t.frames f (reset_memory (t.frames f)) })
              taken.in_pool (fresh_page (filled zeros b)),
          update-update,
        )
        (b, refl, refl, refl)

module _ {D : Type 0} (io : Device D) (fuel : ℕ) (serves : Serves io fuel) (K : ℕ → D → Type 0)
    (kept : (f : ℕ) → Kept io (K f)) (s : BufferPool D) (v : IsValid s) (q : ℕ)
    (absent : resident s q ≡ none) where
  -- The page was read into a frame and is pinned once; or all frames are pinned.
  abbrev pub Loads : Option ℕ → BufferPool D → Type 0
  Loads none t = (t ≡ s) × (s.free_list ≡ []) × (s.lru_replacer ≡ [])
  Loads (some f) t =
      (b : List ℕ) × Pinned s t q f
      × (t.frames f
          ≡ record { bytes = filled zeros b; page_id = q; pin_count = 1; is_dirty = false })
      × (io.pread t.disk.device (page_offset q) page_size ≡ some b)
      × K f t.disk.device
      × (serves.backlog t.disk.device ≤ serves.backlog s.disk.device)

  absent_after : {t : BufferPool D} {f : ℕ} → Taken s t f → resident t q ≡ none
  absent_after taken = elim (taken.table_eq q) [ inl same ↦ same ∙ absent | inr gone ↦ gone.0 ]

  load-Loads :
      (r : Option ℕ) (t : BufferPool D)
      → Takes io fuel serves K kept s v r t
      → Ensures (fetch_miss io fuel q r t) Loads Aborted
  unfolding fetch_miss
  load-Loads none t w = w
  load-Loads (some f) t (taken, k, le) =
      Ensures-weaken (load_frame io fuel q f t) _ Loads Aborted Aborted
        (load_frame-cases io fuel s t f q taken (absent_after taken) _ refl)
        (λ r u (b, er, eb, eu).
          subst (λ a. Loads a u) (sym er)
            (subst (Loads (some f)) (sym eu) (
              b,
              installed-Pinned s t f q
                  (record { bytes = filled zeros b; page_id = q; pin_count = 1; is_dirty = false })
                  t.disk taken (absent_after taken) refl,
              rw (eq→== f f refl),
              eb,
              k,
              le,
            )))
        (λ e u w. w)

  -- `FetchPage` of a page that is not in a well-formed pool either returns a frame that holds what
  -- the file gave, pinned once, or null with nothing changed, only if no frame is free and none can
  -- be evicted; or it throws and leaves the pool well formed. At most one other page leaves the
  -- pool, only if no frame is free. What the eviction of each frame establishes of the device, with
  -- its page written if it was dirty, holds at the return for the frame that is used.
  pub fetch_page_miss :
      ((f : ℕ) → 0 < count f s.free_list → K f s.disk.device)
      → ((f : ℕ) → 0 < count f s.lru_replacer → Settles io (K f) s f)
      → Ensures (fetch_page io fuel q s) Loads Aborted
  unfolding fetch_page
  fetch_page_miss k ks =
      rw (absent, fetch_page)
        (Ensures-bind (take_frame io fuel s) (fetch_miss io fuel q)
          (Takes io fuel serves K kept s v) Loads Aborted
          (take_frame-Takes io fuel serves K kept s v k ks) load-Loads)
