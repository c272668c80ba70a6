-- ===== src/Storage/BPlusTree/Search.antt =====
-- The search of a tree whose pages are in the pool.
use native.Mathlib.Decide.{ℕ_discrete}
use stingdb.Base.{
  ℕ, suc, ◌+◌, ◌-◌, ◌^◌, ◌<◌, ◌≡◌, ◌≢◌, refl, ◌∙◌, ap, Bool, true, arith, eq→==, ne→==,
}
use stingdb.Base.Bytes.{Bytes}
use stingdb.Base.Effect.{Eff, done}
use stingdb.Storage.Page.{Page, invalid_page_id}
use stingdb.Storage.SlottedPage.{Rid}
use stingdb.Storage.Disk.{Device}
use stingdb.Storage.BufferPool.{BufferPool, on_frame}
use stingdb.Storage.BufferPool.Held.{Held, fetch_page-Held, on_frame-Held}
use stingdb.Storage.BPlusTree.{
  BPlusTree, Latched, with_readers, r_lock, r_unlock, release, fetch_locked, descend,
  find_leaf_page, search, tree_insert, find_value,
}
use stingdb.Storage.BPlusTree.Node.{is_leaf_page}

module _ {D : Type 0} (asserts : Bool) (io : Device D) (fuel : ℕ) (q f n : ℕ) (b : Bytes)
    (s : Latched D) where
  -- One more pin and one more reader.
  fetch_locked-Held :
      Held q f n b s.pool
      → n + 1 < 2 ^ 32
      → (pool : BufferPool D) × (fetch_locked asserts io fuel q s
          ≡ done f (record { pool = pool; readers = with_readers s.readers f (s.readers f + 1) }))
        × Held q f (n + 1) b pool
  unfolding fetch_locked r_lock
  fetch_locked-Held h room =
      let (pool, e, h') = fetch_page-Held q f n b s.pool h io fuel room in (pool, rw e refl, h')

  -- A look at the page.
  on_frame-same :
      {A : Type 0} (m : Eff Page A) (a : A)
      → Held q f n b s.pool
      → m (s.pool.frames f) ≡ done a (s.pool.frames f)
      → (pool : BufferPool D) × (on_frame f m s.pool ≡ done a pool) × Held q f n b pool
  on_frame-same m a h e =
      let (pool, call, h') = on_frame-Held q f n b s.pool h m a (s.pool.frames f) e refl refl in
      (
        pool,
        call,
        record { valid = h'.valid; mapped = h'.mapped; pins = h'.pins; holds = h'.holds ∙ h.holds },
      )

-- A reader that came and went is not counted.
pub readers-back :
    (readers : ℕ → ℕ) (f g : ℕ)
    → with_readers
        (with_readers readers f (readers f + 1))
        f
        (with_readers readers f (readers f + 1) f - 1)
        g
      ≡ readers g
readers-back readers f g = elim (ℕ_discrete g f) [
  | yes same ↦ rw (same, eq→== f f refl) (omega arith)
  | no other ↦ rw (ne→== g f other) refl
]

module _ {D : Type 0} (asserts : Bool) (io : Device D) (fuel rounds : ℕ) (tree : BPlusTree)
    (f n : ℕ) (b : Bytes) (s : Latched D) (real : tree.root_page_id ≢ invalid_page_id)
    (h : Held tree.root_page_id f n b s.pool) (leaf : is_leaf_page b ≡ true)
    (room : n + 1 < 2 ^ 32) where
  -- The state after a search: the pin stays.
  abbrev pub IsPinned : Latched D → Type 0
  IsPinned t = Held tree.root_page_id f (n + 1) b t.pool × ((g : ℕ) → t.readers g ≡ s.readers g)

  search-leaf :
      (t : Latched D) × (search asserts io fuel (suc rounds) tree s ≡ done true t) × IsPinned t
  unfolding search find_leaf_page descend release r_unlock
  search-leaf =
      let (pool1, e1, h1) = fetch_locked-Held asserts io fuel tree.root_page_id f n b s h room in
      let s1 : Latched D = record {
        pool = pool1;
        readers = with_readers s.readers f (s.readers f + 1);
      } in
      let (pool2, e2, h2) =
        on_frame-same asserts io fuel tree.root_page_id f (n + 1) b s1
          (λ p. done (is_leaf_page p.bytes) p) true h1
          (ap (λ x. done x (pool1.frames f)) (ap is_leaf_page h1.holds ∙ leaf)) in
      (
        record { pool = pool2; readers = with_readers s1.readers f (s1.readers f - 1) },
        rw (ne→== tree.root_page_id invalid_page_id real, e1, e2) refl,
        (h2, readers-back s.readers f),
      )

  -- On a tree whose root is a leaf in the pool, both `Insert` and `FindValue` return true, whatever the
  -- key: no byte of the leaf is written, and the result row is left as it was. Each gives its latch
  -- back, and keeps its pin of the leaf. This needs a pin count that does not wrap.
  pub tree_insert-find_value :
      (key : ℕ) (rid : Rid)
      → (t : Latched D) × (tree_insert asserts io fuel (suc rounds) tree key rid s ≡ done true t)
        × (find_value asserts io fuel (suc rounds) tree key rid s ≡ done (true, rid) t)
        × IsPinned t
  unfolding tree_insert find_value
  tree_insert-find_value key rid =
      let (t, e, pinned) = search-leaf in
      (t, rw (ne→== tree.root_page_id invalid_page_id real, e) refl, rw e refl, pinned)
