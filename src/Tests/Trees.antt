-- ===== src/Tests/Trees.antt =====
-- Trees over one page of the pool, and the header of a node.
use stingdb.Base.{ℕ, ◌≤◌, ◌≡◌, refl, true, false, List, [], ◌∷◌, arith, if◌then◌else◌, ltb}
use stingdb.Base.Bytes.{Bytes, zeros, decode, load}
use stingdb.Base.Effect.{done}
use stingdb.Storage.SlottedPage.{Rid}
use stingdb.Storage.BufferPool.{BufferPool}
use stingdb.Storage.BufferPool.Held.{Held}
use stingdb.Storage.BPlusTree.{BPlusTree, Latched, tree_insert, find_value}
use stingdb.Storage.BPlusTree.Node.{is_leaf_page, get_type, get_u32}
use stingdb.Storage.BPlusTree.Header.{
  NodeCall, init, increase_size, set_parent, header, run_calls, header_calls, run_calls-header,
}
use stingdb.Storage.BPlusTree.Search.{tree_insert-find_value}
use stingdb.Tests.OnePage.{one_page, one-Held}
use stingdb.Tests.Device.{Drive, drive}

-- A leaf: its type is 2.
abbrev leaf_bytes : Bytes
leaf_bytes i = if ltb i 1 then 2 else 0

abbrev latched : BufferPool Drive → Latched Drive
latched pool = record { pool = pool; readers = λ f. 0 }

zeros-inner : is_leaf_page zeros ≡ false
unfolding is_leaf_page get_type get_u32 decode load
zeros-inner = refl

leaf_bytes-leaf : is_leaf_page leaf_bytes ≡ true
unfolding is_leaf_page get_type get_u32 decode load
leaf_bytes-leaf = refl

abbrev leaf_root : BPlusTree
leaf_root = record { root_page_id = 3 }

abbrev leaf_pool : Latched Drive
leaf_pool = latched (one_page 3 leaf_bytes 0)

abbrev some_row : Rid
some_row = record { page_id = 5; slot_num = 6 }

tree_insert-find_value_example :
    (t : Latched Drive) × (tree_insert true drive 300 4 leaf_root 77 some_row leaf_pool
      ≡ done true t)
    × (find_value true drive 300 4 leaf_root 77 some_row leaf_pool ≡ done (true, some_row) t)
    × (Held 3 0 1 leaf_bytes t.pool × ((g : ℕ) → t.readers g ≡ 0))
tree_insert-find_value_example =
    tree_insert-find_value true drive 300 3 leaf_root 0 0 leaf_bytes leaf_pool
      (λ e. omega (arith, e)) (one-Held 3 leaf_bytes 0) leaf_bytes-leaf (omega arith) 77 some_row

abbrev node_calls : List NodeCall
node_calls = init 2 100 ∷ increase_size 3 ∷ increase_size 0xffff_ffff ∷ set_parent 9 ∷ []

run_calls-header_example :
    (header (run_calls node_calls leaf_bytes)
      ≡ record { type = 2; size = 2; max_size = 100; parent = 9 })
    × ((i : ℕ) → 16 ≤ i → run_calls node_calls leaf_bytes i ≡ leaf_bytes i)
unfolding header_calls
run_calls-header_example =
    run_calls-header node_calls leaf_bytes
      ((omega arith, omega arith), (omega arith, (omega arith, (omega arith, tt))))
