-- ===== src/Storage/BPlusTree/Header.antt =====
-- The header of a node as a record, beside the operations on its bytes.
use stingdb.Base.{
  ℕ, ◌+◌, ◌%◌, ◌^◌, ◌≤◌, ◌<◌, ◌≡◌, refl, ◌∙◌, ap, ◌⊎◌, inl, inr, List, [], ◌∷◌, arith,
}
use stingdb.Base.Bytes.{Bytes, encode, length-encode, store_out}
use stingdb.Storage.Page.{invalid_page_id}
use stingdb.Storage.SlottedPage.Layout.{field, field_self, field_apart}
use stingdb.Storage.BPlusTree.Node
use stingdb.Storage.BPlusTree.Node.{
  put_u32, get_u32, node_init, get_type, get_size, get_max_size, get_parent_page_id,
  set_parent_page_id, is_leaf_page, is_root_page, leaf_node,
}

pub record Header : Type 0 where
  pub type : ℕ
  pub size : ℕ
  pub max_size : ℕ
  pub parent : ℕ

abbrev pub header : Bytes → Header
header m = record {
  type = get_type m;
  size = get_size m;
  max_size = get_max_size m;
  parent = get_parent_page_id m;
}

put-get_self : (off v : ℕ) (m : Bytes) → v < 2 ^ 32 → get_u32 off (put_u32 off v m) ≡ v
unfolding put_u32 get_u32 field
put-get_self off v m small = field_self m off 4 v (omega (arith, small))

put-get_apart :
    (off v : ℕ) (m : Bytes) (at : ℕ)
    → (at + 4 ≤ off) ⊎ (off + 4 ≤ at)
    → get_u32 at (put_u32 off v m) ≡ get_u32 at m
unfolding put_u32 get_u32 field
put-get_apart off v m at apart =
    field_apart m off (encode 4 v) at 4
      (elim apart [ inl h ↦ inl h | inr h ↦ inr (omega (arith, h, length-encode 4 v)) ])

-- The rest of the page is not touched.
put-beyond : (off v : ℕ) (m : Bytes) (i : ℕ) → off + 4 ≤ i → put_u32 off v m i ≡ m i
unfolding put_u32
put-beyond off v m i h = store_out m off (encode 4 v) i (inr (omega (arith, h, length-encode 4 v)))

-- Calls on a node: those that write.
pub data NodeCall : Type 0 where
  init : ℕ → ℕ → NodeCall
  set_size increase_size set_parent : ℕ → NodeCall

-- The arguments are numbers of 32 bits.
abbrev pub IsCall : NodeCall → Type 0
IsCall (init type max_size) = (type < 2 ^ 32) × (max_size < 2 ^ 32)
IsCall (set_size size) = size < 2 ^ 32
IsCall (increase_size by) = by < 2 ^ 32
IsCall (set_parent parent) = parent < 2 ^ 32

abbrev pub AreCalls : List NodeCall → Type 0
AreCalls [] = Unit {0}
AreCalls (c ∷ cs) = IsCall c × AreCalls cs

abbrev pub run_call : NodeCall → Bytes → Bytes
run_call (init type max_size) = node_init type max_size
run_call (set_size size) = Node.set_size size
run_call (increase_size by) = Node.increase_size by
run_call (set_parent parent) = set_parent_page_id parent

abbrev pub header_call : NodeCall → Header → Header
header_call (init type max_size) h = record {
  type = type;
  size = 0;
  max_size = max_size;
  parent = invalid_page_id;
}
header_call (set_size size) h = record h { size = size }
header_call (increase_size by) h = record h { size = (h.size + by) % 2 ^ 32 }
header_call (set_parent parent) h = record h { parent = parent }

unfoldable pub run_calls : List NodeCall → Bytes → Bytes
run_calls [] m = m
run_calls (c ∷ cs) m = run_calls cs (run_call c m)

unfoldable pub header_calls : List NodeCall → Header → Header
header_calls [] h = h
header_calls (c ∷ cs) h = header_calls cs (header_call c h)

put_type-header :
    (n : ℕ) (m : Bytes) → n < 2 ^ 32 → header (put_u32 0 n m) ≡ record (header m) { type = n }
unfolding get_type get_size get_max_size get_parent_page_id
put_type-header n m small =
    rw
      (
        put-get_self 0 n m small,
        put-get_apart 0 n m 4 (inr (omega arith)),
        put-get_apart 0 n m 8 (inr (omega arith)),
        put-get_apart 0 n m 12 (inr (omega arith)),
      )
      refl

put_size-header :
    (n : ℕ) (m : Bytes) → n < 2 ^ 32 → header (put_u32 4 n m) ≡ record (header m) { size = n }
unfolding get_type get_size get_max_size get_parent_page_id
put_size-header n m small =
    rw
      (
        put-get_self 4 n m small,
        put-get_apart 4 n m 0 (inl (omega arith)),
        put-get_apart 4 n m 8 (inr (omega arith)),
        put-get_apart 4 n m 12 (inr (omega arith)),
      )
      refl

put_max-header :
    (n : ℕ) (m : Bytes) → n < 2 ^ 32 → header (put_u32 8 n m) ≡ record (header m) { max_size = n }
unfolding get_type get_size get_max_size get_parent_page_id
put_max-header n m small =
    rw
      (
        put-get_self 8 n m small,
        put-get_apart 8 n m 0 (inl (omega arith)),
        put-get_apart 8 n m 4 (inl (omega arith)),
        put-get_apart 8 n m 12 (inr (omega arith)),
      )
      refl

put_parent-header :
    (n : ℕ) (m : Bytes) → n < 2 ^ 32 → header (put_u32 12 n m) ≡ record (header m) { parent = n }
unfolding get_type get_size get_max_size get_parent_page_id
put_parent-header n m small =
    rw
      (
        put-get_self 12 n m small,
        put-get_apart 12 n m 0 (inl (omega arith)),
        put-get_apart 12 n m 4 (inl (omega arith)),
        put-get_apart 12 n m 8 (inl (omega arith)),
      )
      refl

run_call-header :
    (c : NodeCall) (m : Bytes) → IsCall c → header (run_call c m) ≡ header_call c (header m)
unfolding node_init Node.set_size Node.increase_size set_parent_page_id
run_call-header (init type max_size) m (small_type, small_max) =
    put_parent-header invalid_page_id (put_u32 8 max_size (put_u32 4 0 (put_u32 0 type m)))
      (omega arith)
    ∙ ap (λ (h : Header). record h { parent = invalid_page_id })
        (put_max-header max_size (put_u32 4 0 (put_u32 0 type m)) small_max
          ∙ ap (λ (h : Header). record h { max_size = max_size })
              (put_size-header 0 (put_u32 0 type m) (omega arith)
                ∙ ap (λ (h : Header). record h { size = 0 }) (put_type-header type m small_type)))
run_call-header (set_size size) m small = put_size-header size m small
run_call-header (increase_size by) m small =
    put_size-header ((get_size m + by) % 2 ^ 32) m (omega arith)
run_call-header (set_parent n) m small = put_parent-header n m small

run_call-beyond : (c : NodeCall) (m : Bytes) (i : ℕ) → 16 ≤ i → run_call c m i ≡ m i
unfolding node_init Node.set_size Node.increase_size set_parent_page_id
run_call-beyond (init type max_size) m i h =
    put-beyond 12 invalid_page_id (put_u32 8 max_size (put_u32 4 0 (put_u32 0 type m))) i
      (omega (arith, h))
    ∙ put-beyond 8 max_size (put_u32 4 0 (put_u32 0 type m)) i (omega (arith, h))
    ∙ put-beyond 4 0 (put_u32 0 type m) i (omega (arith, h))
    ∙ put-beyond 0 type m i (omega (arith, h))
run_call-beyond (set_size size) m i h = put-beyond 4 size m i (omega (arith, h))
run_call-beyond (increase_size by) m i h =
    put-beyond 4 ((get_size m + by) % 2 ^ 32) m i (omega (arith, h))
run_call-beyond (set_parent n) m i h = put-beyond 12 n m i (omega (arith, h))

-- Any sequence of `Init`, `SetSize`, `IncreaseSize` and `SetParentPageId` with arguments of 32 bits on
-- the bytes of a node changes what `GetType`, `GetSize`, `GetMaxSize` and `GetParentPageId` read as it
-- changes a record of four numbers, and touches no byte behind the header.
pub run_calls-header :
    (cs : List NodeCall) (m : Bytes)
    → AreCalls cs
    → (header (run_calls cs m) ≡ header_calls cs (header m))
      × ((i : ℕ) → 16 ≤ i → run_calls cs m i ≡ m i)
unfolding run_calls header_calls
run_calls-header [] m all = (refl, λ i h. refl)
run_calls-header (c ∷ cs) m (first, all) =
    let (same, beyond) = run_calls-header cs (run_call c m) all in
    (
      same ∙ ap (header_calls cs) (run_call-header c m first),
      λ i h. beyond i h ∙ run_call-beyond c m i h,
    )
