-- ===== src/Storage/SlottedPage/Insert.antt =====
-- `insert_tuple` on both branches.
use stingdb.Base.{
  ℕ, ◌+◌, ◌-◌, ◌*◌, ◌^◌, ◌≤◌, ◌<◌, ◌≡◌, refl, ◌∙◌, true, List, [], ◌∷◌, ◌++◌, none, some, length,
  arith, le→ltb, lt→ltb,
}
use stingdb.Base.Bytes.{encode, length-encode}
use stingdb.Base.Effect.{done}
use stingdb.Storage.Page.{Page, set_dirty}
use stingdb.Storage.SlottedPage.{
  u16, set_tuple_count, set_free_space_pointer, place_tuple, insert_tuple, slot_at,
}
use stingdb.Storage.SlottedPage.Layout.{space, count, free, IsFormatted, records}
use stingdb.Storage.SlottedPage.Placed.{
  placed, as_record, Fits, after_insert, after_insert-Fits, count-after_insert, free-after_insert,
  after_insert-IsFormatted, records-after_insert,
}
use stingdb.Storage.SlottedPage.Access.{
  get_tuple_count-count, get_free_space_pointer-free, copy_to-store,
}

pub place_tuple-placed :
    (tuple : List ℕ) (n f : ℕ) (p : Page)
    → length tuple < 65536
    → f < 65536
    → length tuple ≤ f
    → Fits n tuple (f - length tuple)
    → place_tuple tuple (length tuple) n f p
      ≡ done
          (some (record { page_id = p.page_id; slot_num = n }))
          (record p { bytes = placed p.bytes tuple n (f - length tuple); is_dirty = true })
unfolding place_tuple placed set_free_space_pointer set_tuple_count set_dirty
place_tuple-placed tuple n f p h k le (low, high) = rw (
  at_eq,
  copy_to-store 10 (encode 2 at) p (rw (length-encode 2 at) (omega arith)),
  copy_to-store at tuple _ high,
  slot_eq,
  copy_to-store (12 + n * 4) (encode 2 at) _ (rw (length-encode 2 at) (omega arith)),
  copy_to-store (12 + n * 4 + 2) (encode 2 (length tuple)) _
      (rw (length-encode 2 (length tuple)) (omega arith)),
  count_eq,
  copy_to-store 8 (encode 2 (n + 1)) _ (rw (length-encode 2 (n + 1)) (omega arith)),
)
  where
    at : ℕ
    at = f - length tuple

    at_eq : u16 (f + 2 ^ 16 - length tuple) ≡ at
    at_eq = omega arith

    slot_eq : slot_at n ≡ 12 + n * 4
    slot_eq = omega arith

    count_eq : u16 (n + 1) ≡ n + 1
    count_eq = omega arith

module _ (tuple : List ℕ) (p : Page) (ok : IsFormatted p.bytes) (short : length tuple < 65532) where
  -- The `uint16_t` casts of a short record change nothing.
  size_eq : u16 (length tuple) ≡ length tuple
  size_eq = omega arith

  required_eq : u16 (length tuple + 4) ≡ length tuple + 4
  required_eq = omega arith

  used_eq : slot_at (count p.bytes) ≡ 12 + count p.bytes * 4
  used_eq = omega (arith, ok.room, ok.inside)

  pub insert_tuple-place_tuple :
      length tuple + 4 ≤ space p.bytes
      → insert_tuple tuple p ≡ place_tuple tuple (length tuple) (count p.bytes) (free p.bytes) p
  insert_tuple-place_tuple h =
      unfold insert_tuple in
      rw (
        le→ltb 0xffff (length tuple) (omega arith),
        get_tuple_count-count p,
        get_free_space_pointer-free p,
        size_eq,
        required_eq,
        used_eq,
        le→ltb (free p.bytes) (12 + count p.bytes * 4 + (length tuple + 4))
            (omega (arith, h, ok.room)),
      )

  room_for :
      length tuple + 4 ≤ space p.bytes → 12 + count p.bytes * 4 + (length tuple + 4) ≤ free p.bytes
  room_for h = omega (arith, ok.room)

  pub insert_tuple-after_insert :
      (h : 12 + count p.bytes * 4 + (length tuple + 4) ≤ free p.bytes)
      → insert_tuple tuple p
        ≡ done
            (some (record { page_id = p.page_id; slot_num = count p.bytes }))
            (record p { bytes = after_insert p.bytes tuple ok h; is_dirty = true })
  insert_tuple-after_insert h =
      insert_tuple-place_tuple (omega arith)
      ∙ place_tuple-placed tuple (count p.bytes) (free p.bytes) p (omega arith)
          (omega (arith, ok.inside)) (omega (arith, h)) (after_insert-Fits p.bytes tuple ok h)

  -- A formatted page with room for a record of fewer than 65532 bytes and its slot takes it: the call
  -- returns the next slot number, appends the record and keeps the page formatted.
  pub insert_tuple_fits :
      length tuple + 4 ≤ space p.bytes
      → (q : Page) × (insert_tuple tuple p
          ≡ done (some (record { page_id = p.page_id; slot_num = count p.bytes })) q)
        × IsFormatted q.bytes
        × (records q.bytes ≡ records p.bytes ++ as_record tuple ∷ [])
        × (space q.bytes + (length tuple + 4) ≡ space p.bytes)
        × (q.is_dirty ≡ true)
        × (q.page_id ≡ p.page_id)
        × (q.pin_count ≡ p.pin_count)
  insert_tuple_fits h = (
    record p { bytes = after_insert p.bytes tuple ok (room_for h); is_dirty = true },
    insert_tuple-after_insert (room_for h),
    after_insert-IsFormatted p.bytes tuple ok (room_for h),
    records-after_insert p.bytes tuple ok (room_for h),
    omega (
      arith,
      count-after_insert p.bytes tuple ok (room_for h),
      free-after_insert p.bytes tuple ok (room_for h),
    ),
    refl,
    refl,
    refl,
  )

  -- Without room for a record of fewer than 65532 bytes and its slot, the call returns false on a
  -- formatted page, which is as it was.
  pub insert_tuple_full : space p.bytes < length tuple + 4 → insert_tuple tuple p ≡ done none p
  insert_tuple_full h =
      unfold insert_tuple in
      rw (
        le→ltb 0xffff (length tuple) (omega arith),
        get_tuple_count-count p,
        get_free_space_pointer-free p,
        size_eq,
        required_eq,
        used_eq,
        lt→ltb (free p.bytes) (12 + count p.bytes * 4 + (length tuple + 4))
            (omega (arith, ok.room)),
      )
