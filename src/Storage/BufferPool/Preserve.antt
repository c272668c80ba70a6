-- ===== src/Storage/BufferPool/Preserve.antt =====
-- Fetching a page changes nothing that can be seen of any page.
use native.Mathlib.Decide.{ℕ_discrete}
use stingdb.Base.{
  ℕ, ◌+◌, ◌*◌, ◌<◌, ◌≡◌, ◌≢◌, sym, ◌∙◌, ap, ◌⊎◌, inl, inr, false, [], Option, none, some, arith,
  Option-cases, some_injective,
}
use stingdb.Base.Effect.{Ensures, Ensures-weaken}
use stingdb.Base.Table.{find}
use stingdb.Storage.Page.{Page}
use stingdb.Storage.Disk.{Device, DiskManager, page_offset}
use stingdb.Storage.Disk.Serves.{Serves, Stores}
use stingdb.Storage.BufferPool.{BufferPool, pin, fetch_page}
use stingdb.Storage.BufferPool.Invariant.{resident, IsValid}
use stingdb.Storage.BufferPool.Taken.{Aborted}
use stingdb.Storage.BufferPool.Install.{Pinned}
use stingdb.Storage.BufferPool.Hit.{fetch_page_hit}
use stingdb.Storage.BufferPool.Fetch.{Loads, fetch_page_miss}
use stingdb.Storage.BufferPool.Contents.{
  filled-get_or, block, contents, IsClean, Synced, Synced-Kept, target_other, target_same,
  Synced-free, listed_Settles, Preserves,
}

module _ {D : Type 0} {io : Device D} {fuel : ℕ} {serves : Serves io fuel}
    (stores : Stores io fuel serves) (s : BufferPool D) (v : IsValid s) (clean : IsClean stores s)
    (idle : serves.backlog s.disk.device ≡ 0) (q : ℕ) where
  module _ (absent : resident s q ≡ none) where
    abbrev LoadsHere : Option ℕ → BufferPool D → Type 0
    LoadsHere =
        Loads io fuel serves (Synced stores s v clean) (Synced-Kept stores s v clean) s v q absent

    module _ (t : BufferPool D) (f : ℕ) (loads : LoadsHere (some f) t) where
      pinned : Pinned s t q f
      pinned = loads.1

      synced : Synced stores s v clean f t.disk.device
      synced = loads.4

      quiet : serves.backlog t.disk.device ≡ 0
      quiet = omega (arith, loads.5)

      block_q : (i : ℕ) → i < 8192 → block stores t q i ≡ block stores s q i
      block_q i h = synced q i h ∙ target_other stores s v clean f q i (λ e. cc)

      bytes_q : (i : ℕ) → i < 8192 → (t.frames f).bytes i ≡ block stores t q i
      bytes_q i h =
          ap (λ (p : Page). p.bytes i) loads.2
          ∙ filled-get_or loads.0 i
              (serves.pread_length t.disk.device (page_offset q) 8192 loads.0 loads.3) h
          ∙ stores.pread_settled t.disk.device (page_offset q) 8192 i loads.0 quiet loads.3 h

      -- Another page that is in the pool has another frame.
      frame_ne : (p g : ℕ) → p ≢ q → resident t p ≡ some g → g ≢ f
      frame_ne p g ne e same = ne (
          sym (pinned.valid.table_in p g e).1
          ∙ ap (λ h. (t.frames h).page_id) same
          ∙ (pinned.valid.table_in q f pinned.mapped).1)

      kept_block :
          (p i : ℕ) → i < 8192 → resident s p ≢ some f → block stores t p i ≡ block stores s p i
      kept_block p i h ne = synced p i h ∙ target_other stores s v clean f p i ne

      contents_ne : (p i : ℕ) → i < 8192 → p ≢ q → contents stores t p i ≡ contents stores s p i
      contents_ne p i h ne = elim (pinned.table_eq p ne) [
        | inr (gone, was, _) ↦
            rw (gone, was) (synced p i h ∙ target_same stores s v clean f p i was)
        | inl same ↦ elim (Option-cases (resident t p)) [
          | inl out ↦
              let out_s : resident s p ≡ none = sym same ∙ out in
              rw (out, out_s) (kept_block p i h (λ e. cc))
          | inr (g, there) ↦
              let there_s : resident s p ≡ some g = sym same ∙ there in
              rw (there, there_s)
                (ap (λ (r : Page). r.bytes i) (pinned.frames_eq g (frame_ne p g ne there)))
        ]
      ]

      clean_ne :
          (p g i : ℕ)
          → i < 8192
          → resident t p ≡ some g
          → (t.frames g).is_dirty ≡ false
          → g ≢ f
          → (resident t p ≡ resident s p)
            ⊎ ((resident t p ≡ none) × (resident s p ≡ some f) × (s.free_list ≡ []))
          → (t.frames g).bytes i ≡ block stores t p i
      clean_ne p g i h e c ne (inr (gone, _, _)) = absurd (cc)
      clean_ne p g i h e c ne (inl same) =
          let there : resident s p ≡ some g = sym same ∙ e in
          let frame : t.frames g ≡ s.frames g = pinned.frames_eq g ne in
          ap (λ (r : Page). r.bytes i) frame
          ∙ clean p g i h there (ap (λ (r : Page). r.is_dirty) (sym frame) ∙ c)
          ∙ sym (kept_block p i h (λ e'. ne (some_injective g f (sym there ∙ e'))))

      loaded-IsClean : IsClean stores t
      loaded-IsClean p g i h e c = elim (ℕ_discrete p q) [
        | yes same ↦
            rw (same, some_injective g f (sym e ∙ ap (resident t) same ∙ pinned.mapped))
              (bytes_q i h)
        | no ne ↦ clean_ne p g i h e c (frame_ne p g ne e) (pinned.table_eq p ne)
      ]

      loads-Preserves :
          Preserves stores s v clean t
          × ((i : ℕ) → i < 8192 → (t.frames f).bytes i ≡ contents stores s q i)
      loads-Preserves = (
        (
          λ p i h. elim (ℕ_discrete p q) [
            | yes same ↦ rw (same, pinned.mapped, absent) (bytes_q i h ∙ block_q i h)
            | no ne ↦ contents_ne p i h ne
          ],
          loaded-IsClean,
          quiet,
        ),
        λ i h. rw absent (bytes_q i h ∙ block_q i h),
      )

  module _ (f : ℕ) (there : resident s q ≡ some f) (t : BufferPool D) (pinned : Pinned s t q f)
      (frame : t.frames f ≡ pin (s.frames f)) (table : t.page_table ≡ s.page_table)
      (disk : t.disk ≡ s.disk) where
    hit_bytes :
        (g i : ℕ)
        → ((t.frames g).bytes i ≡ (s.frames g).bytes i)
          × ((t.frames g).is_dirty ≡ (s.frames g).is_dirty)
    hit_bytes g i = elim (ℕ_discrete g f) [
      | yes same ↦ rw same (ap (λ (r : Page). r.bytes i) frame, ap (λ (r : Page). r.is_dirty) frame)
      | no ne ↦ (
        ap (λ (r : Page). r.bytes i) (pinned.frames_eq g ne),
        ap (λ (r : Page). r.is_dirty) (pinned.frames_eq g ne),
      )
    ]

    hit_block : (p i : ℕ) → block stores t p i ≡ block stores s p i
    hit_block p i = ap (λ (d : DiskManager D). stores.settled d.device (p * 8192 + i)) disk

    hit_resident : (p : ℕ) → resident t p ≡ resident s p
    hit_resident p = ap (find ℕ_discrete p) table

    hit-Preserves : Preserves stores s v clean t
    hit-Preserves = (
      λ p i h. elim (Option-cases (resident s p)) [
        | inl out ↦
            let out_t : resident t p ≡ none = hit_resident p ∙ out in
            rw (out, out_t) (hit_block p i)
        | inr (g, at) ↦
            let at_t : resident t p ≡ some g = hit_resident p ∙ at in
            rw (at, at_t) (hit_bytes g i).0
      ],
      λ p g i h e c.
          (hit_bytes g i).0
          ∙ clean p g i h (sym (hit_resident p) ∙ e) (sym (hit_bytes g i).1 ∙ c)
          ∙ sym (hit_block p i),
      ap (λ (d : DiskManager D). serves.backlog d.device) disk ∙ idle,
    )

  -- The page that `FetchPage` returns, and what has become of the others.
  abbrev pub Sees : Option ℕ → BufferPool D → Type 0
  Sees none t = (t ≡ s) × (resident s q ≡ none) × (s.free_list ≡ []) × (s.lru_replacer ≡ [])
  Sees (some f) t =
      Pinned s t q f
      × ((i : ℕ) → i < 8192 → (t.frames f).bytes i ≡ contents stores s q i)
      × Preserves stores s v clean t

  -- With no write in flight and clean pages as in the file, `FetchPage` of a well-formed pool gives
  -- a frame with the bytes of the page, in the pool or not, whatever is evicted for it; no page's
  -- contents change, and clean pages stay as in the file. It gives null only if the page is not in
  -- the pool, no frame is free and none can be evicted. If it throws, the pool is left well formed.
  pub fetch_page-Sees : Ensures (fetch_page io fuel q s) Sees Aborted
  fetch_page-Sees = elim (Option-cases (resident s q)) [
    | inl absent ↦
        Ensures-weaken (fetch_page io fuel q s) (LoadsHere absent) Sees Aborted Aborted
          (fetch_page_miss io fuel serves (Synced stores s v clean) (Synced-Kept stores s v clean) s
            v q absent (Synced-free stores s v clean) (listed_Settles stores s v clean))
          (loads-Sees absent) (λ e t w. w)
    | inr (f, there) ↦
        let (t, call, pinned, frame, table, disk) = fetch_page_hit s v q f there io fuel in
        rw call (
          pinned,
          λ i h. rw there (ap (λ (r : Page). r.bytes i) frame),
          hit-Preserves f there t pinned frame table disk,
        )
  ]
    where
      loads-Sees :
          (absent : resident s q ≡ none) (r : Option ℕ) (t : BufferPool D)
          → LoadsHere absent r t
          → Sees r t
      loads-Sees absent none t w = (w.0, absent, w.1, w.2)
      loads-Sees absent (some f) t w =
          let (kept, bytes) = loads-Preserves absent t f w in (w.1, bytes, kept)
