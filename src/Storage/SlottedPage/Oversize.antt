-- ===== src/Storage/SlottedPage/Oversize.antt =====
-- Records whose length and slot do not fit a `uint16_t` together.
use stingdb.Base.{
  ℕ, ◌+◌, ◌-◌, ◌*◌, ◌≤◌, ◌<◌, ◌≡◌, List, none, length, arith, le→ltb, lt→ltb, lt→leb,
}
use stingdb.Base.Bytes.{encode, length-encode}
use stingdb.Base.Effect.{done, fault}
use stingdb.Storage.Page.{Page, copy_to}
use stingdb.Storage.SlottedPage.{insert_tuple, place_tuple, set_free_space_pointer, u16, slot_at}
use stingdb.Storage.SlottedPage.Access.{
  get_tuple_count-count, get_free_space_pointer-free, copy_to-store,
}
use stingdb.Storage.SlottedPage.Layout.{IsFormatted, count, free}

module _ (tuple : List ℕ) (p : Page) (ok : IsFormatted p.bytes) where
  -- More than 65535 bytes are refused, with the page as it was.
  pub insert_tuple_refused : 65535 < length tuple → insert_tuple tuple p ≡ done none p
  unfolding insert_tuple
  insert_tuple_refused h = rw (lt→ltb 0xffff (length tuple) h)

  -- A record of 65532 to 65535 bytes passes the check of a formatted page with room for a slot, as
  -- the space required wraps to less than 4, and the call writes outside the page.
  pub insert_tuple_overruns :
      65532 ≤ length tuple
      → length tuple ≤ 65535
      → 12 + count p.bytes * 4 + 4 ≤ free p.bytes
      → insert_tuple tuple p ≡ fault
  unfolding insert_tuple place_tuple set_free_space_pointer copy_to
  insert_tuple_overruns low high room = rw (
    le→ltb 0xffff (length tuple) high,
    get_tuple_count-count p,
    get_free_space_pointer-free p,
    used_eq,
    size_eq,
    le→ltb (free p.bytes) (12 + count p.bytes * 4 + u16 (length tuple + 4))
        (omega (arith, ok.inside)),
    copy_to-store 10 (encode 2 (u16 (free p.bytes + 65536 - length tuple))) p
        (omega (arith, length-encode 2 (u16 (free p.bytes + 65536 - length tuple)))),
    copy_to,
    lt→leb (u16 (free p.bytes + 65536 - length tuple) + length tuple) 8192 (omega arith),
  )
    where
      used_eq : slot_at (count p.bytes) ≡ 12 + count p.bytes * 4
      used_eq = omega (arith, ok.room, ok.inside)

      size_eq : u16 (length tuple) ≡ length tuple
      size_eq = omega arith
