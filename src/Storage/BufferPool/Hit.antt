-- ===== src/Storage/BufferPool/Hit.antt =====
-- `fetch_page` of a page that is in the pool.
use native.Mathlib.Decide.{ℕ_discrete}
use stingdb.Base.{ℕ, ◌<◌, ◌≡◌, ◌≢◌, refl, sym, ◌∙◌, ap, inl, some, count, arith, eq→==, ne→==}
use stingdb.Base.Effect.{done}
use stingdb.Storage.Disk.{Device}
use stingdb.Storage.BufferPool.{BufferPool, update, pin, remove, fetch_hit, fetch_page}
use stingdb.Storage.BufferPool.Access.{get_frame-in, set_frame-in}
use stingdb.Storage.BufferPool.Frames.{count-remove_self, count-remove_ne}
use stingdb.Storage.BufferPool.Invariant.{resident, IsValid}
use stingdb.Storage.BufferPool.Install.{Pinned}

module _ {D : Type 0} (s : BufferPool D) (v : IsValid s) (q f : ℕ) (e : resident s q ≡ some f) where
  abbrev hit_state : BufferPool D
  hit_state = record s {
    frames = update s.frames f (pin (s.frames f));
    lru_replacer = remove f s.lru_replacer;
  }

  in_pool : f < s.pool_size
  in_pool = (v.table_in q f e).0

  same_page : (g : ℕ) → (update s.frames f (pin (s.frames f)) g).page_id ≡ (s.frames g).page_id
  same_page g = elim (ℕ_discrete g f) [
    | yes same ↦ rw (eq→== g f same) (ap (λ h. (s.frames h).page_id) (sym same))
    | no ne ↦ rw (ne→== g f ne)
  ]

  not_f : (g : ℕ) → 0 < count g (remove f s.lru_replacer) → g ≢ f
  not_f g h same = absurd (
      omega (
        arith,
        ap (λ x. count x (remove f s.lru_replacer)) same,
        count-remove_self f s.lru_replacer,
      ))

  -- The frame holds a page, so it is not free.
  not_free : count f s.free_list ≡ 0
  not_free = elim (ℕ_discrete (count f s.free_list) 0) [
    | yes z ↦ z
    | no p ↦ absurd ((v.free_in f (omega arith)).1 q e)
  ]

  hit_lru :
      (g : ℕ)
      → 0 < count g (remove f s.lru_replacer)
      → (resident s (update s.frames f (pin (s.frames f)) g).page_id ≡ some g)
        × ((update s.frames f (pin (s.frames f)) g).pin_count ≡ 0)
  hit_lru g h =
      let ne = not_f g h in
      rw (ne→== g f ne) (v.lru_in g (rw (count-remove_ne f g s.lru_replacer ne) at h))

  hit-IsValid : IsValid hit_state
  hit-IsValid = record {
    table_in = λ r g h. ((v.table_in r g h).0, same_page g ∙ (v.table_in r g h).1);
    free_in = v.free_in;
    lru_in = hit_lru;
    once = λ g. elim (ℕ_discrete g f) [
      | yes same ↦ rw (same, count-remove_self) (omega (arith, not_free))
      | no ne ↦ rw (count-remove_ne f g s.lru_replacer ne) (v.once g)
    ];
  }

  hit-Pinned : Pinned s hit_state q f
  hit-Pinned = record {
    valid = hit-IsValid;
    in_pool = in_pool;
    mapped = e;
    not_listed = omega (arith, not_free, count-remove_self f s.lru_replacer);
    size_eq = refl;
    frames_eq = λ g ne. rw (ne→== g f ne);
    others = λ g ne. rw (count-remove_ne f g s.lru_replacer ne);
    table_eq = λ r ne. inl refl;
  }

  -- A page that is in a well-formed pool is pinned once more where it is, and can no longer be
  -- evicted; the page table and the disk are left alone.
  pub fetch_page_hit :
      (io : Device D) (fuel : ℕ)
      → (t : BufferPool D) × (fetch_page io fuel q s ≡ done (some f) t)
        × Pinned s t q f
        × (t.frames f ≡ pin (s.frames f))
        × (t.page_table ≡ s.page_table)
        × (t.disk ≡ s.disk)
  fetch_page_hit io fuel = (
    hit_state,
    unfold fetch_page fetch_hit in
        rw (e, fetch_page, get_frame-in f s in_pool, set_frame-in f s in_pool (pin (s.frames f))),
    hit-Pinned,
    rw (eq→== f f refl),
    refl,
    refl,
  )
