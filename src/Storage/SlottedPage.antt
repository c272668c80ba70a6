-- ===== src/Storage/SlottedPage.antt =====
-- src/storage/table/slotted_page.h and slotted_page.cpp: records of variable length in a page. A
-- call acts on the page; `size_t` and `int` intermediate values do not wrap, and what the source
-- casts to `uint16_t` is taken modulo 2 ^ 16.
pub mod Layout
pub mod Placed
pub mod Access
pub mod Insert
pub mod Read
pub mod Delete
pub mod Fresh
pub mod Lsn
pub mod Refine
pub mod Oversize
pub mod Race
use stingdb.Base.{
  ℕ, ◌+◌, ◌-◌, ◌*◌, ◌%◌, ◌^◌, Bool, true, false, List, Option, none, some, ltb, leb, ◌==◌,
  if◌then◌else◌, length,
}
use stingdb.Base.Bytes.{encode, decode}
use stingdb.Base.Effect.{Eff, ◌>>=◌, ◌>>◌, pure, get_state, put_state}
use stingdb.Storage.Page.{Page, page_size, set_dirty, reset_memory, copy_to, copy_from}

-- Record ID.
pub record Rid : Type 0 where
  pub page_id : ℕ
  pub slot_num : ℕ

unfoldable pub rid_eq : Rid → Rid → Bool
rid_eq a b = if a.page_id == b.page_id then a.slot_num == b.slot_num else false

abbrev pub lsn_offset : ℕ
lsn_offset = 0

abbrev pub tuple_count_offset : ℕ
tuple_count_offset = 8

abbrev pub free_space_offset : ℕ
free_space_offset = 10

abbrev pub header_size : ℕ
header_size = 12

-- 2 bytes for the offset of the record, 2 for its size.
abbrev pub slot_size : ℕ
slot_size = 4

abbrev pub u16 : ℕ → ℕ
u16 n = n % 2 ^ 16

unfoldable pub get_lsn : Eff Page ℕ
get_lsn = do bs ← copy_from lsn_offset 8; pure (decode bs)

unfoldable pub set_lsn : ℕ → Eff Page (Unit {0})
set_lsn lsn = copy_to lsn_offset (encode 8 lsn)

unfoldable pub get_tuple_count : Eff Page ℕ
get_tuple_count = do bs ← copy_from tuple_count_offset 2; pure (decode bs)

unfoldable pub set_tuple_count : ℕ → Eff Page (Unit {0})
set_tuple_count count = copy_to tuple_count_offset (encode 2 count)

unfoldable pub get_free_space_pointer : Eff Page ℕ
get_free_space_pointer = do bs ← copy_from free_space_offset 2; pure (decode bs)

unfoldable pub set_free_space_pointer : ℕ → Eff Page (Unit {0})
set_free_space_pointer pointer = copy_to free_space_offset (encode 2 pointer)

unfoldable pub init : Eff Page (Unit {0})
init = do
  p ← get_state
  put_state (reset_memory p)
  set_lsn 0
  set_tuple_count 0
  set_free_space_pointer (u16 page_size)

-- Where the slot of a record lies.
abbrev pub slot_at : ℕ → ℕ
slot_at i = u16 (header_size + i * slot_size)

-- From the reservation of the space on, once the record is known to fit.
unfoldable pub place_tuple : List ℕ → ℕ → ℕ → ℕ → Eff Page (Option Rid)
place_tuple tuple tuple_size tuple_count free_space = do
  let free_space' = u16 (free_space + 2 ^ 16 - tuple_size)
  set_free_space_pointer free_space'
  copy_to free_space' tuple
  let slot_offset = slot_at tuple_count
  copy_to slot_offset (encode 2 free_space')
  copy_to (slot_offset + 2) (encode 2 tuple_size)
  p ← get_state
  set_tuple_count (u16 (tuple_count + 1))
  q ← get_state
  put_state (set_dirty true q)
  pure (some (record { page_id = p.page_id; slot_num = tuple_count }))

-- `none` is the result false. The test `free_space - used_space_header < required_space` is one of
-- `int`s, so its left side may be negative: it is written as a sum.
unfoldable pub insert_tuple : List ℕ → Eff Page (Option Rid)
insert_tuple tuple = if ltb 0xffff (length tuple) then pure none else do
  let tuple_size = u16 (length tuple)
  tuple_count ← get_tuple_count
  free_space ← get_free_space_pointer
  let required_space = u16 (tuple_size + slot_size)
  let used_space_header = slot_at tuple_count
  if ltb free_space (used_space_header + required_space)
      then pure none
      else place_tuple tuple tuple_size tuple_count free_space

-- `none` is the result false.
unfoldable pub get_tuple : Rid → Eff Page (Option (List ℕ))
get_tuple rid = do
  tuple_count ← get_tuple_count
  if leb tuple_count rid.slot_num then pure none else do
    let slot_offset = slot_at rid.slot_num
    offset_bytes ← copy_from slot_offset 2
    size_bytes ← copy_from (slot_offset + 2) 2
    let tuple_size = decode size_bytes
    if tuple_size == 0
        then pure none
        else do tuple ← copy_from (decode offset_bytes) tuple_size; pure (some tuple)

unfoldable pub mark_delete : Rid → Eff Page Bool
mark_delete rid = do
  tuple_count ← get_tuple_count
  if leb tuple_count rid.slot_num then pure false else do
    let slot_offset = slot_at rid.slot_num
    copy_to (slot_offset + 2) (encode 2 0)
    p ← get_state
    put_state (set_dirty true p)
    pure true
