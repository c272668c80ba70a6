-- ===== src/Storage/BufferPool/FlushAll.antt =====
-- `flush_all_pages`.
use native.Mathlib.Decide.{ℕ_discrete}
use stingdb.Base.{ℕ, ◌+◌, ◌*◌, ◌<◌, ◌≡◌, refl, sym, ◌∙◌, ap, inl, inr, Option-cases}
use stingdb.Base.Effect.{queue_full, Ensures, Ensures-bind, Ensures-weaken, Ensures-within, within}
use stingdb.Base.Table.{find}
use stingdb.Storage.Disk.{Device, DiskManager, retrieve_async_completions}
use stingdb.Storage.Disk.Serves.{Serves, Stores, Kept, retrieve_async_completions-Reaped}
use stingdb.Storage.BufferPool.{BufferPool, flush_entries, flush_all_pages}
use stingdb.Storage.BufferPool.Invariant.{resident, IsValid}
use stingdb.Storage.BufferPool.Contents.{block, contents, IsClean}
use stingdb.Base.Table.{HasOnce-AreFound}
use stingdb.Storage.BufferPool.Entries.{HasEntries}
use stingdb.Storage.BufferPool.FlushEntries.{
  found-clean, IsFull, Keeps, Cleans, Stops, flush_entries-Cleans,
}

module _ {D : Type 0} {io : Device D} {fuel : ℕ} {serves : Serves io fuel}
    (stores : Stores io fuel serves) where
  -- The file is to hold what each page holds.
  written_back :
      (s t : BufferPool D)
      → Cleans stores s.page_table s t
      → (p i : ℕ) → i < 8192
      → block stores t p i ≡ contents stores s p i
  unfolding Cleans
  written_back s t (keeps, table, never, all) p i h = sym in_file ∙ keeps.2 p i h
    where
      in_file : contents stores t p i ≡ block stores t p i
      in_file = elim (Option-cases (resident t p)) [
        | inl out ↦ rw out refl
        | inr (f, there) ↦ rw there (
            keeps.1 p f i h there
              (found-clean t p f s.page_table all (ap (find ℕ_discrete p) (sym table) ∙ there)))
      ]

  -- The completions that are taken change no byte of the file.
  abbrev SettledAs : BufferPool D → D → Type 0
  SettledAs t d =
      (p i : ℕ) → stores.settled d (p * 8192 + i) ≡ stores.settled t.disk.device (p * 8192 + i)

  SettledAs-Kept : (t : BufferPool D) → Kept io (SettledAs t)
  SettledAs-Kept t = record {
    peek_kept = λ d k p i. stores.peek_settled d (p * 8192 + i) ∙ k p i;
    advance_kept = λ d k p i. stores.advance_settled d (p * 8192 + i) ∙ k p i;
  }

  -- What FlushAllPages leaves when it returns.
  abbrev pub WritesBack : BufferPool D → BufferPool D → Type 0
  WritesBack s t =
      Keeps stores s t × ((p i : ℕ) → i < 8192 → block stores t p i ≡ contents stores s p i)

  reaped-Keeps :
      (s t : BufferPool D) (disk : DiskManager D)
      → Cleans stores s.page_table s t
      → SettledAs t disk.device
      → WritesBack s (record t { disk = disk })
  unfolding Cleans
  reaped-Keeps s t disk cleans settled = (
    (
      record {
        table_in = valid.table_in;
        free_in = valid.free_in;
        lru_in = valid.lru_in;
        once = valid.once;
      },
      λ p f i h there c. cleans.0.1 p f i h there c ∙ sym (settled p i),
      λ p i h. same_contents p i ∙ cleans.0.2 p i h,
    ),
    λ p i h. settled p i ∙ written_back s t cleans p i h,
  )
    where
      valid : IsValid t
      valid = cleans.0.0

      same_contents :
          (p i : ℕ) → contents stores (record t { disk = disk }) p i ≡ contents stores t p i
      same_contents p i = elim (Option-cases (resident t p)) [
        | inl out ↦ rw out (settled p i)
        | inr (f, there) ↦ rw there refl
      ]

  -- `FlushAllPages` of a well-formed pool with one entry for each page, whose clean pages are as in
  -- the file, either returns, and has submitted writes with which the file holds what every page holds,
  -- in the pool or not, once all accepted writes have landed; this does not say that any has landed by
  -- then. Or it throws, and then the ring has no room for a write, and a page of the pool is still dirty.
  -- Either way no page's contents change, and clean pages stay as in the file.
  pub flush_all_pages-WritesBack :
      (s : BufferPool D)
      → IsValid s
      → IsClean stores s
      → HasEntries s
      → Ensures
          (flush_all_pages io fuel s)
          (λ _ t. WritesBack s t)
          (λ e t. (e ≡ queue_full) × IsFull stores t × Keeps stores s t)
  unfolding flush_all_pages Stops
  flush_all_pages-WritesBack s v clean entries =
      Ensures-bind (flush_entries io fuel s.page_table s) _ _ _ _
        (flush_entries-Cleans stores s.page_table s v clean
          (HasOnce-AreFound ℕ_discrete s.page_table entries))
        λ _ t cleans.
          Ensures-bind
            (within t (λ d. record t { disk = d }) (retrieve_async_completions io fuel t.disk)) _
            (λ _ u. WritesBack s u) _ _
            (Ensures-within t (λ d. record t { disk = d })
              (retrieve_async_completions io fuel t.disk) _ _
              (Ensures-weaken (retrieve_async_completions io fuel t.disk) _ _ _ _
                (retrieve_async_completions-Reaped io fuel serves (SettledAs t) (SettledAs-Kept t)
                  t.disk (λ p i. refl))
                (λ n d (_, _, _, _, settled). reaped-Keeps s t d cleans settled)
                (λ e d b. absurd b)))
            (λ n u q. q)
