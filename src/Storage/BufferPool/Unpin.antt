-- ===== src/Storage/BufferPool/Unpin.antt =====
-- `unpin_page`.
use native.Mathlib.Decide.{ℕ_discrete}
use stingdb.Base.{
  ℕ, ◌+◌, ◌%◌, ◌^◌, ◌<◌, ◌≡◌, ◌≢◌, ◌&&◌, ◌-◌, refl, sym, ◌∙◌, ap, Bool, true, false, ◌∷◌, none,
  some, ◌==◌, if◌then◌else◌, count, arith, eq→==, ne→==,
}
use stingdb.Base.Effect.{done, fault}
use stingdb.Storage.Page.{Page, set_dirty}
use stingdb.Storage.BufferPool.{BufferPool, update, unpin_page, unpin, is_positive}
use stingdb.Storage.BufferPool.Access.{get_frame-in, set_frame-in}
use stingdb.Storage.BufferPool.Invariant.{resident, IsValid}

module _ {D : Type 0} (s : BufferPool D) (v : IsValid s) (q f : ℕ) (e : resident s q ≡ some f) where
  -- The frame after one pin was given back.
  abbrev pub released : Bool → Page
  released is_dirty = record (s.frames f) {
    pin_count = (s.frames f).pin_count - 1;
    is_dirty = if is_dirty then true else (s.frames f).is_dirty;
  }

  abbrev pub released_state : Bool → BufferPool D
  released_state is_dirty = record s {
    frames = update s.frames f (released is_dirty);
    lru_replacer = if (s.frames f).pin_count == 1 then f ∷ s.lru_replacer else s.lru_replacer;
  }

  module _ (pinned : 0 < (s.frames f).pin_count) (bound : (s.frames f).pin_count < 2 ^ 31)
      (is_dirty : Bool) where
    same_page : (g : ℕ) → (update s.frames f (released is_dirty) g).page_id ≡ (s.frames g).page_id
    same_page g = elim (ℕ_discrete g f) [
      | yes same ↦ rw (eq→== g f same) (ap (λ h. (s.frames h).page_id) (sym same))
      | no ne ↦ rw (ne→== g f ne)
    ]

    not_lru : count f s.lru_replacer ≡ 0
    not_lru = elim (ℕ_discrete (count f s.lru_replacer) 0) [
      | yes z ↦ z
      | no p ↦ absurd (omega (arith, (v.lru_in f (omega arith)).1))
    ]

    not_free : count f s.free_list ≡ 0
    not_free = elim (ℕ_discrete (count f s.free_list) 0) [
      | yes z ↦ z
      | no p ↦ absurd ((v.free_in f (omega arith)).1 q e)
    ]

    lru_ne :
        (g : ℕ) → g ≢ f → count g (released_state is_dirty).lru_replacer ≡ count g s.lru_replacer
    lru_ne g ne = ground arith

    lru_self :
        count f (released_state is_dirty).lru_replacer
        ≡ (if (s.frames f).pin_count == 1 then 1 else 0)
    lru_self = ground (arith, not_lru)

    last_pin : 0 < count f (released_state is_dirty).lru_replacer → (s.frames f).pin_count - 1 ≡ 0
    last_pin h = ground (arith, lru_self)

    released_lru :
        (g : ℕ)
        → 0 < count g (released_state is_dirty).lru_replacer
        → (resident s (update s.frames f (released is_dirty) g).page_id ≡ some g)
          × ((update s.frames f (released is_dirty) g).pin_count ≡ 0)
    released_lru g h = elim (ℕ_discrete g f) [
      | yes same ↦ rw (same, eq→== f f refl) (rw (v.table_in q f e).1 e, last_pin (rw same at h))
      | no ne ↦ rw (ne→== g f ne) (v.lru_in g (rw (lru_ne g ne) at h))
    ]

    pub released-IsValid : IsValid (released_state is_dirty)
    released-IsValid = record {
      table_in = λ r g h. ((v.table_in r g h).0, same_page g ∙ (v.table_in r g h).1);
      free_in = v.free_in;
      lru_in = released_lru;
      once = λ g. elim (ℕ_discrete g f) [
        | yes same ↦ rw same (ground (arith, lru_self, not_free))
        | no ne ↦ rw (lru_ne g ne) (v.once g)
      ];
    }

    counted : ((s.frames f).pin_count + 2 ^ 32 - 1) % 2 ^ 32 ≡ (s.frames f).pin_count - 1
    counted = omega arith

    positive : is_positive (s.frames f).pin_count ≡ true
    positive = ground arith

    queue_last :
        (p : Page) (b : Bool)
        → (if b
            then record s { frames = update s.frames f p; lru_replacer = f ∷ s.lru_replacer }
            else record s { frames = update s.frames f p })
          ≡ record s {
            frames = update s.frames f p;
            lru_replacer = if b then f ∷ s.lru_replacer else s.lru_replacer;
          }
    queue_last p true = refl
    queue_last p false = refl

    marked_eq :
        (dirty : Bool)
        → unpin (if dirty then set_dirty true (s.frames f) else s.frames f) ≡ released dirty
    unfolding set_dirty
    marked_eq true = rw counted
    marked_eq false = rw counted

    and_false : (b : Bool) → (b && false) ≡ false
    and_false true = refl
    and_false false = refl

    call : (asserts : Bool) → unpin_page asserts q is_dirty s ≡ done true (released_state is_dirty)
    unfolding unpin_page
    call asserts =
        rw
          (
            e,
            unpin_page,
            get_frame-in f s (v.table_in q f e).0,
            set_frame-in f s (v.table_in q f e).0,
            marked_eq is_dirty,
            positive,
            and_false asserts,
          )
          (ap (done true) (queue_last (released is_dirty) ((s.frames f).pin_count == 1)))

    -- A pin of a page in a well-formed pool, with fewer than 2 ^ 31 pins, is given back: the count
    -- falls by one, the page turns dirty if the caller wrote to it, and with its last pin it
    -- becomes the last candidate for eviction. No assertion fails, and the pool stays well formed.
    pub unpin_page_lem :
        (asserts : Bool)
        → (unpin_page asserts q is_dirty s ≡ done true (released_state is_dirty))
          × IsValid (released_state is_dirty)
    unpin_page_lem asserts = (call asserts, released-IsValid)

  -- Without a pin to give back, a build with assertions stops.
  pub unpin_page_unpinned :
      (is_dirty : Bool) → (s.frames f).pin_count ≡ 0 → unpin_page true q is_dirty s ≡ fault
  unpin_page_unpinned is_dirty z =
      unfold unpin_page in
      rw (
        e,
        unpin_page,
        get_frame-in f s (v.table_in q f e).0,
        set_frame-in f s (v.table_in q f e).0,
        z,
      )

-- A page that is not in the pool cannot be unpinned.
pub unpin_page_absent :
    {D : Type 0} (s : BufferPool D) (q : ℕ) (asserts is_dirty : Bool)
    → resident s q ≡ none
    → unpin_page asserts q is_dirty s ≡ done false s
unfolding unpin_page
unpin_page_absent s q asserts is_dirty e = rw (e, unpin_page)
