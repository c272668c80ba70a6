-- ===== src/Storage/BPlusTree/Node.antt =====
-- `BPlusTreeNode` of src/storage/index/b_plus_tree.cpp: the header of a node in the bytes of its page.
use stingdb.Base.{ℕ, ◌+◌, ◌%◌, ◌^◌, Bool, ◌==◌}
use stingdb.Base.Bytes.{Bytes, store, load, encode, decode}
use stingdb.Storage.Page.{invalid_page_id}

-- A value of the enumeration is its number.
abbrev pub BPlusTreeNodeType : Type 0
BPlusTreeNodeType = ℕ

abbrev pub internal_node : BPlusTreeNodeType
internal_node = 1

abbrev pub leaf_node : BPlusTreeNodeType
leaf_node = 2

-- `memcpy` of a `uint32_t` to and from `data_ + off`.
unfoldable pub put_u32 : ℕ → ℕ → Bytes → Bytes
put_u32 off v m = store m off (encode 4 v)

unfoldable pub get_u32 : ℕ → Bytes → ℕ
get_u32 off m = decode (load m off 4)

unfoldable pub node_init : BPlusTreeNodeType → ℕ → Bytes → Bytes
node_init type max_size m =
    put_u32 12 invalid_page_id (put_u32 8 max_size (put_u32 4 0 (put_u32 0 type m)))

unfoldable pub get_type : Bytes → BPlusTreeNodeType
get_type m = get_u32 0 m

unfoldable pub get_size : Bytes → ℕ
get_size m = get_u32 4 m

unfoldable pub set_size : ℕ → Bytes → Bytes
set_size size m = put_u32 4 size m

-- `by` is the bit pattern of the `int`.
unfoldable pub increase_size : ℕ → Bytes → Bytes
increase_size by m = set_size ((get_size m + by) % 2 ^ 32) m

unfoldable pub get_max_size : Bytes → ℕ
get_max_size m = get_u32 8 m

unfoldable pub get_parent_page_id : Bytes → ℕ
get_parent_page_id m = get_u32 12 m

unfoldable pub set_parent_page_id : ℕ → Bytes → Bytes
set_parent_page_id parent m = put_u32 12 parent m

unfoldable pub is_leaf_page : Bytes → Bool
unfolding get_type
is_leaf_page m = get_type m == leaf_node

unfoldable pub is_root_page : Bytes → Bool
unfolding get_parent_page_id
is_root_page m = get_parent_page_id m == invalid_page_id
