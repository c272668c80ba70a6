-- ===== src/Storage/BufferPool/FlushEntries.antt =====
-- `flush_entries`: the loop over the page table.
use mathlib.Core.Logic.{if_pos, if_neg}
use native.Mathlib.Decide.{ℕ_discrete}
use stingdb.Base.{
  ℕ, ◌<◌, ◌≡◌, refl, sym, ◌∙◌, ap, inl, inr, true, false, List, [], ◌∷◌, some, Bool-cases,
  some_injective, eq→==, ne→==, subst,
}
use stingdb.Base.Effect.{Error, queue_full, Ensures, Ensures-bind, Ensures-weaken}
use stingdb.Base.Table.{find, AreFound}
use stingdb.Storage.Page.{set_dirty}
use stingdb.Storage.Disk.{Device}
use stingdb.Storage.Disk.Serves.{Serves, Stores}
use stingdb.Storage.BufferPool.{BufferPool, update, flush_frame, flush_entries}
use stingdb.Storage.BufferPool.Invariant.{resident, IsValid}
use stingdb.Storage.BufferPool.Contents.{contents, IsClean}
use stingdb.Storage.BufferPool.Flush.{
  flushed-IsValid, contents-flushed, flushed-IsClean, clean_now, flush_frame_dirty,
  flush_frame_clean, flush_frame_full,
}

module _ {D : Type 0} where
  abbrev pub AreEntries : BufferPool D → List (ℕ × ℕ) → Type 0
  AreEntries s es = AreFound ℕ_discrete s.page_table es

  AreEntries-table :
      (s t : BufferPool D)
      → t.page_table ≡ s.page_table
      → (es : List (ℕ × ℕ)) → AreEntries s es
      → AreEntries t es
  AreEntries-table s t same [] h = tt
  AreEntries-table s t same ((q, f) ∷ es) (there, h) =
      (ap (find ℕ_discrete q) same ∙ there, AreEntries-table s t same es h)

  unfoldable pub AreCleaned : BufferPool D → List (ℕ × ℕ) → Type 0
  AreCleaned s [] = Unit {0}
  AreCleaned s ((q, f) ∷ es) = ((s.frames f).is_dirty ≡ false) × AreCleaned s es

  pub found-clean :
      (s : BufferPool D) (q f : ℕ) (es : List (ℕ × ℕ))
      → AreCleaned s es
      → find ℕ_discrete q es ≡ some f
      → (s.frames f).is_dirty ≡ false
  unfolding find AreCleaned
  found-clean s q f [] h e = absurd (cc)
  found-clean s q f ((p, g) ∷ es) (clean, h) e = elim (ℕ_discrete p q) [
    | yes same ↦
        subst (λ x. (s.frames x).is_dirty ≡ false)
          (some_injective g f (sym (if_pos (ℕ_discrete p q) same _ _) ∙ e)) clean
    | no ne ↦ found-clean s q f es h (sym (if_neg (ℕ_discrete p q) ne _ _) ∙ e)
  ]

module _ {D : Type 0} {io : Device D} {fuel : ℕ} {serves : Serves io fuel}
    (stores : Stores io fuel serves) where
  -- Nothing that can be seen of a page changes.
  abbrev pub Keeps : BufferPool D → BufferPool D → Type 0
  Keeps s t =
      IsValid t
      × IsClean stores t
      × ((p i : ℕ) → i < 8192 → contents stores t p i ≡ contents stores s p i)

  -- Some frames become clean, and none dirty.
  unfoldable pub Cleans : List (ℕ × ℕ) → BufferPool D → BufferPool D → Type 0
  Cleans es s t =
      Keeps s t
      × (t.page_table ≡ s.page_table)
      × ((g : ℕ) → (s.frames g).is_dirty ≡ false → (t.frames g).is_dirty ≡ false)
      × AreCleaned t es

  -- The ring is full, and a page of the pool is still dirty.
  abbrev pub IsFull : BufferPool D → Type 0
  IsFull t =
      (io.get_sqe t.disk.device ≡ false)
      × ((q : ℕ) × (f : ℕ) × (resident t q ≡ some f) × ((t.frames f).is_dirty ≡ true))

  unfoldable pub Stops : BufferPool D → Error → BufferPool D → Type 0
  Stops s e t = (e ≡ queue_full) × IsFull t × Keeps s t

  never_dirty :
      (s : BufferPool D) (f g : ℕ)
      → (s.frames g).is_dirty ≡ false
      → (update s.frames f (set_dirty false (s.frames f)) g).is_dirty ≡ false
  unfolding set_dirty
  never_dirty s f g h = elim (ℕ_discrete g f) [
    | yes same ↦ rw (same, eq→== f f refl) refl
    | no ne ↦ rw (ne→== g f ne) h
  ]

  flush_frame-Cleans :
      (q f : ℕ) (s : BufferPool D)
      → IsValid s
      → IsClean stores s
      → resident s q ≡ some f
      → Ensures (flush_frame io fuel q f s) (λ _ t. Cleans ((q, f) ∷ []) s t) (Stops s)
  unfolding Cleans AreCleaned Stops
  flush_frame-Cleans q f s v clean there = elim (Bool-cases (s.frames f).is_dirty) [
    | inl dirty ↦ elim (Bool-cases (io.get_sqe s.disk.device)) [
      | inl room ↦ rw (flush_frame_dirty stores s v clean q f there room dirty) (
        (
          flushed-IsValid stores s v clean q f there room,
          flushed-IsClean stores s v clean q f there room,
          contents-flushed stores s v clean q f there room,
        ),
        refl,
        never_dirty s f,
        (clean_now stores s v clean q f there room, tt),
      )
      | inr full ↦
          rw (flush_frame_full stores s v clean q f there dirty full)
            (refl, (full, (q, f, there, dirty)), (v, clean, λ p i h. refl))
    ]
    | inr idle ↦
        rw (flush_frame_clean stores s v clean q f there idle)
          ((v, clean, λ p i h. refl), refl, λ g h. h, (idle, tt))
  ]

  Keeps-trans : (s t u : BufferPool D) → Keeps s t → Keeps t u → Keeps s u
  Keeps-trans s t u (_, _, same) (valid, clean, same') =
      (valid, clean, λ p i h. same' p i h ∙ same p i h)

  pub flush_entries-Cleans :
      (es : List (ℕ × ℕ)) (s : BufferPool D)
      → IsValid s
      → IsClean stores s
      → AreEntries s es
      → Ensures (flush_entries io fuel es s) (λ _ t. Cleans es s t) (Stops s)
  unfolding flush_entries Cleans AreCleaned Stops
  flush_entries-Cleans [] s v clean entries = ((v, clean, λ p i h. refl), refl, λ g h. h, tt)
  flush_entries-Cleans ((q, f) ∷ es) s v clean (there, entries) =
      Ensures-bind (flush_frame io fuel q f s) _ _ _ _ (flush_frame-Cleans q f s v clean there)
        λ _ t (keeps, table, never, (now, _)).
          Ensures-weaken (flush_entries io fuel es t) _ _ _ _
            (flush_entries-Cleans es t (keeps.0) (keeps.1) (AreEntries-table s t table es entries))
            (λ _ u (keeps', table', never', all). (
              Keeps-trans s t u keeps keeps',
              table' ∙ table,
              λ g h. never' g (never g h),
              (never' f now, all),
            ))
            (λ e u (why, full, keeps'). (why, full, Keeps-trans s t u keeps keeps'))
