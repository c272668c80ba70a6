-- ===== src/Storage/BPlusTree.antt =====
-- src/storage/index/b_plus_tree.h and b_plus_tree.cpp: the tree over the buffer pool. A latch is held
-- by readers or by one writer; no call of the source takes it as a writer.
pub mod Node
pub mod Header
pub mod Search
pub mod Endless
use stingdb.Base.{
  ℕ, zero, suc, ◌+◌, ◌-◌, Bool, true, false, Option, none, some, ◌==◌, if◌then◌else◌,
}
use stingdb.Base.Effect.{
  Eff, Outcome, done, thrown, fault, pure, crash, bind, ◌>>=◌, ◌>>◌, get_state, put_state, within,
}
use stingdb.Storage.Page.{Page, invalid_page_id}
use stingdb.Storage.SlottedPage.{Rid}
use stingdb.Storage.Disk.{Device}
use stingdb.Storage.BufferPool.{BufferPool, fetch_page, unpin_page, update, on_frame}
use stingdb.Storage.BPlusTree.Node.{is_leaf_page}

-- `bpm_` is the pool of the state.
pub record BPlusTree : Type 0 where
  pub root_page_id : ℕ

-- The page is the number of its frame.
pub record SearchContext : Type 0 where
  pub page : Option ℕ
  pub is_write : Bool

abbrev pub new_context : SearchContext
new_context = record { page = none; is_write = false }

-- The pool, and for each frame how many readers hold its latch.
pub record Latched (D : Type 0) : Type 0 where
  pub pool : BufferPool D
  pub readers : ℕ → ℕ

-- The number of readers of one frame changed.
abbrev pub with_readers : (ℕ → ℕ) → ℕ → ℕ → ℕ → ℕ
with_readers readers f n g = if g == f then n else readers g

module _ {D : Type 0} where
  abbrev pub on_latched_pool : {A : Type 0} → Eff (BufferPool D) A → Eff (Latched D) A
  on_latched_pool m s = within s (λ p. record s { pool = p }) (m s.pool)

  unfoldable pub r_lock : ℕ → Eff (Latched D) (Unit {0})
  r_lock f s = done tt (record s { readers = with_readers s.readers f (s.readers f + 1) })

  unfoldable pub r_unlock : ℕ → Eff (Latched D) (Unit {0})
  r_unlock f s = done tt (record s { readers = with_readers s.readers f (s.readers f - 1) })

  -- The destructor of `SearchContext`; a latch that no writer holds cannot be given back by one.
  unfoldable pub release : SearchContext → Eff (Latched D) (Unit {0})
  release context = elim context.page [
    | none ↦ pure tt
    | some f ↦ if context.is_write then crash else r_unlock f
  ]

module _ {D : Type 0} (asserts : Bool) (io : Device D) (fuel : ℕ) where
  -- `FetchPage` and `RLock` on its result.
  unfoldable pub fetch_locked : ℕ → Eff (Latched D) ℕ
  unfolding r_lock
  fetch_locked page_id = do
    found ← on_latched_pool (fetch_page io fuel page_id)
    elim found [ none ↦ crash | some f ↦ (do r_lock f; pure f) ]

  -- `RUnlock` and `UnpinPage` of the ancestor.
  unfoldable pub leave : ℕ → Eff (Latched D) (Unit {0})
  unfolding r_unlock
  leave f = do
    r_unlock f
    page_id ← on_latched_pool (on_frame f (λ p. done p.page_id p))
    unpinned ← on_latched_pool (unpin_page asserts page_id false)
    pure tt

  -- The loop, from the page in frame `current` on.
  unfoldable pub descend : ℕ → ℕ → Eff (Latched D) ℕ
  unfolding fetch_locked leave
  descend zero current = crash
  descend (suc rounds) current = do
    is_leaf ← on_latched_pool (on_frame current (λ p. done (is_leaf_page p.bytes) p))
    elim is_leaf [
      | true ↦ pure current
      | false ↦ (do
        next_page ← fetch_locked invalid_page_id
        leave current
        descend rounds next_page)
    ]

  -- The context that `context` points to is returned beside the result.
  unfoldable pub find_leaf_page :
      ℕ → BPlusTree → SearchContext → Eff (Latched D) (Option ℕ × SearchContext)
  unfolding descend
  find_leaf_page rounds tree context =
      if tree.root_page_id == invalid_page_id then pure (none, context) else (do
        root ← fetch_locked tree.root_page_id
        current ← descend rounds root
        pure (some current, record { page = some current; is_write = false }))

  -- The search, and the end of the context that it fills.
  unfoldable pub search : ℕ → BPlusTree → Eff (Latched D) Bool
  unfolding find_leaf_page release
  search rounds tree = do
    (leaf, context) ← find_leaf_page rounds tree new_context
    release context
    elim leaf [ none ↦ pure false | some _ ↦ pure true ]

  -- Neither the key nor the row's place is used.
  unfoldable pub tree_insert : ℕ → BPlusTree → ℕ → Rid → Eff (Latched D) Bool
  tree_insert rounds tree key rid =
      if tree.root_page_id == invalid_page_id then pure true else search rounds tree

  unfoldable pub find_value : ℕ → BPlusTree → ℕ → Rid → Eff (Latched D) (Bool × Rid)
  find_value rounds tree key rid_out = do found ← search rounds tree; pure (found, rid_out)
