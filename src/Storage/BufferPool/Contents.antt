-- ===== src/Storage/BufferPool/Contents.antt =====
-- The buffer pool as a cache: what a page holds, wherever it is, is not changed by its movements.
use native.Mathlib.Decide.{ℕ_discrete}
use stingdb.Base.{
  ℕ, ◌+◌, ◌-◌, ◌*◌, ◌&&◌, length, get_or, get_or-replicate, get_or-ge, leb, ltb, ◌≤◌, ◌<◌, ◌≡◌, ◌≢◌,
  refl, sym, ◌∙◌, ap, ◌⊎◌, inl, inr, true, false, List, Option, none, some, ◌==◌, if◌then◌else◌,
  count, arith, Option-cases, some_injective, eq→==, ne→==,
}
use stingdb.Base.Bytes.{zeros, store}
use stingdb.Storage.Disk.{Device, page_offset, filled}
use stingdb.Storage.Disk.Serves.{Serves, Stores, Kept}
use stingdb.Storage.BufferPool.{BufferPool}
use stingdb.Storage.BufferPool.Invariant.{resident, IsValid}
use stingdb.Storage.BufferPool.Evict.{Settles}

-- A read of a page, short or not, gives its bytes and zeros behind them.
pub filled-get_or :
    (b : List ℕ) (i : ℕ) → length b ≤ 8192 → i < 8192 → filled zeros b i ≡ get_or b i 0
unfolding filled store
filled-get_or b i h k =
    ground
      (arith, get_or-replicate {A = ℕ} (8192 - length b) (i - length b) 0, get_or-ge {A = ℕ} b i 0)

module _ {D : Type 0} {io : Device D} {fuel : ℕ} {serves : Serves io fuel}
    (stores : Stores io fuel serves) where
  -- What the file will hold of page `p`.
  abbrev pub block : BufferPool D → ℕ → ℕ → ℕ
  block s p i = stores.settled s.disk.device (p * 8192 + i)

  abbrev pub contents_in : BufferPool D → Option ℕ → ℕ → ℕ → ℕ
  contents_in s none p i = block s p i
  contents_in s (some f) p i = (s.frames f).bytes i

  -- What page `p` holds: the bytes of its frame, or of the file.
  abbrev pub contents : BufferPool D → ℕ → ℕ → ℕ
  contents s p = contents_in s (resident s p) p

  -- A page in the pool that is not dirty is as in the file.
  abbrev pub IsClean : BufferPool D → Type 0
  IsClean s =
      (p f i : ℕ)
      → i < 8192
      → resident s p ≡ some f
      → (s.frames f).is_dirty ≡ false
      → (s.frames f).bytes i ≡ block s p i

  module _ (s : BufferPool D) (v : IsValid s) (clean : IsClean s) where
    pub target_in : ℕ → Option ℕ → ℕ → ℕ → ℕ
    target_in f none p i = block s p i
    target_in f (some g) p i = if g == f then (s.frames f).bytes i else block s p i

    -- The file when the page of frame `f` is up to date in it.
    abbrev pub Synced : ℕ → D → Type 0
    Synced f d =
        (p i : ℕ) → i < 8192 → stores.settled d (p * 8192 + i) ≡ target_in f (resident s p) p i

    pub Synced-Kept : (f : ℕ) → Kept io (Synced f)
    Synced-Kept f = record {
      peek_kept = λ d k p i h. stores.peek_settled d (p * 8192 + i) ∙ k p i h;
      advance_kept = λ d k p i h. stores.advance_settled d (p * 8192 + i) ∙ k p i h;
    }

    pub target_other :
        (f p i : ℕ) → resident s p ≢ some f → target_in f (resident s p) p i ≡ block s p i
    unfolding target_in
    target_other f p i ne = elim (Option-cases (resident s p)) [
      | inl none_there ↦ rw (none_there, target_in)
      | inr (g, there) ↦ rw (there, target_in, ne→== g f (λ same. ne (there ∙ ap some same)))
    ]

    pub target_same :
        (f p i : ℕ) → resident s p ≡ some f → target_in f (resident s p) p i ≡ (s.frames f).bytes i
    unfolding target_in
    target_same f p i e = rw (e, target_in, eq→== f f refl)

    holds_cases : (p f : ℕ) → (resident s p ≡ some f) ⊎ (resident s p ≢ some f)
    holds_cases p f = elim (Option-cases (resident s p)) [
      | inl none_there ↦ inr (λ e. cc)
      | inr (g, there) ↦ elim (ℕ_discrete g f) [
        | yes same ↦ inl (there ∙ ap some same)
        | no ne ↦ inr (λ e. ne (some_injective g f (sym there ∙ e)))
      ]
    ]

    pub Synced-free : (f : ℕ) → 0 < count f s.free_list → Synced f s.disk.device
    Synced-free f h p i k = sym (target_other f p i ((v.free_in f h).1 p))

    Synced-clean : (f : ℕ) → (s.frames f).is_dirty ≡ false → Synced f s.disk.device
    Synced-clean f c p i k = elim (holds_cases p f) [
      | inl e ↦ sym (clean p f i k e c) ∙ sym (target_same f p i e)
      | inr ne ↦ sym (target_other f p i ne)
    ]

    -- A write of the page covers its block and no other.
    in_block :
        (p i : ℕ)
        → i < 8192
        → (leb (p * 8192) (p * 8192 + i) && ltb (p * 8192 + i) (p * 8192 + 8192)) ≡ true
    in_block p i h = ground arith

    off_block :
        (q p i : ℕ)
        → i < 8192
        → p ≢ q
        → (leb (q * 8192) (p * 8192 + i) && ltb (p * 8192 + i) (q * 8192 + 8192)) ≡ false
    off_block q p i h ne = ground arith

    offset_in : (p i : ℕ) → p * 8192 + i - p * 8192 ≡ i
    offset_in p i = omega arith

    pub Synced-written :
        (f : ℕ)
        → resident s (s.frames f).page_id ≡ some f
        → io.get_sqe s.disk.device ≡ true
        → Synced f (
            io.submit s.disk.device
              (page_offset (s.frames f).page_id)
              (s.frames f).bytes
              (s.frames f).page_id)
    Synced-written f e room p i k = elim (ℕ_discrete p (s.frames f).page_id) [
      | yes same ↦
          rw (same, stores.submit_settled, room, in_block (s.frames f).page_id i k, offset_in)
            (sym (target_same f (s.frames f).page_id i e))
      | no ne ↦
          rw (stores.submit_settled, room, off_block (s.frames f).page_id p i k ne)
            (sym (target_other f p i (λ h. ne (sym (v.table_in p f h).1))))
    ]

    pub listed_Settles : (f : ℕ) → 0 < count f s.lru_replacer → Settles io (Synced f) s f
    listed_Settles f h = record {
      clean = Synced-clean f;
      dirty = λ _ room. Synced-written f (v.lru_in f h).0 room;
    }

    -- Nothing that can be seen of any page changed, and the pool is clean again.
    abbrev pub Preserves : BufferPool D → Type 0
    Preserves t =
        ((p i : ℕ) → i < 8192 → contents t p i ≡ contents s p i)
        × IsClean t
        × (serves.backlog t.disk.device ≡ 0)
