-- ===== src/Storage/SlottedPage/Race.antt =====
-- Two insertions on one page whose steps interleave: nothing in the source latches the page.
use native.Mathlib.Numerals.{add-one}
use stingdb.Base.{
  ℕ, ◌+◌, ◌-◌, ◌*◌, ◌≤◌, ◌<◌, ◌≡◌, true, ◌∙◌, ap₂, List, [], ◌∷◌, ◌++◌, Option, some, length, arith,
}
use stingdb.Base.Bytes.{Bytes}
use stingdb.Base.Effect.{done}
use stingdb.Storage.Page.{Page}
use stingdb.Storage.SlottedPage.{
  Rid, insert_tuple, place_tuple, get_tuple_count, get_free_space_pointer,
}
use stingdb.Storage.SlottedPage.Layout.{
  space, count, free, IsFormatted, record_at, records, records_below, records_below_ext,
}
use stingdb.Storage.SlottedPage.Placed.{
  placed, as_record, Fits, after_insert, after_insert-Fits, count-placed, slot_offset-placed_lt,
  record_at-placed, record_at-placed_lt,
}
use stingdb.Storage.SlottedPage.Access.{get_tuple_count-count, get_free_space_pointer-free}
use stingdb.Storage.SlottedPage.Insert.{
  place_tuple-placed, insert_tuple-place_tuple, insert_tuple-after_insert,
}

module _ (m : Bytes) (a b : List ℕ) (ok : IsFormatted m)
    (room_a : 12 + count m * 4 + (length a + 4) ≤ free m)
    (room_b : 12 + count m * 4 + (length b + 4) ≤ free m) where
  -- The bytes after `b` was inserted, and then `a` was written where there was room before.
  abbrev overwritten : Bytes
  overwritten = placed (after_insert m b ok room_b) a (count m) (free m - length a)

  first-Fits : Fits (count m) a (free m - length a)
  first-Fits = after_insert-Fits m a ok room_a

  second-Fits : Fits (count m) b (free m - length b)
  second-Fits = after_insert-Fits m b ok room_b

  old_record : (i : ℕ) → i < count m → record_at overwritten i ≡ record_at m i
  old_record i h =
      record_at-placed_lt (after_insert m b ok room_b) a (count m) (free m - length a) first-Fits i
        h
        (omega (
          arith,
          slot_offset-placed_lt m b (count m) (free m - length b) second-Fits i h,
          ok.above i h,
        ))
      ∙ record_at-placed_lt m b (count m) (free m - length b) second-Fits i h
          (omega (arith, ok.above i h))

  records-overwritten : records overwritten ≡ records m ++ as_record a ∷ []
  unfolding records records_below
  records-overwritten =
      rw
        (
          count-placed (after_insert m b ok room_b) a (count m) (free m - length a) first-Fits
              (omega (arith, ok.inside)),
          add-one (count m),
        )
        (ap₂ (λ xs (x : Option (List ℕ)). xs ++ x ∷ [])
          (records_below_ext m overwritten (count m) old_record)
          (record_at-placed (after_insert m b ok room_b) a (count m) (free m - length a)
            first-Fits))

-- An insertion of `a` that has read the number of records and the free space, and checked the room, is
-- overtaken by an insertion of `b`, and then goes on with what it has read.
abbrev pub Overtaken : Page → List ℕ → List ℕ → Rid → Page → Page → Type 0
Overtaken p a b rid q t =
    (get_tuple_count p ≡ done (count p.bytes) p)
    × (get_free_space_pointer p ≡ done (free p.bytes) p)
    × (insert_tuple a p ≡ place_tuple a (length a) (count p.bytes) (free p.bytes) p)
    × (insert_tuple b p ≡ done (some rid) q)
    × (place_tuple a (length a) (count p.bytes) (free p.bytes) q ≡ done (some rid) t)

module _ (p : Page) (a b : List ℕ) (ok : IsFormatted p.bytes) (short_a : length a < 65532)
    (short_b : length b < 65532) (room_a : length a + 4 ≤ space p.bytes)
    (room_b : length b + 4 ≤ space p.bytes) where
  -- InsertTuple is not safe without a latch. On a formatted page with room for either of two records of
  -- fewer than 65532 bytes, an insertion that has made its reads and its check is overtaken by a whole
  -- insertion: both return true with the same place, and the page then shows the records from before and
  -- that of the insertion that was overtaken. The other record is lost.
  pub insert_tuple-lost :
      (rid : Rid) × (q : Page) × (t : Page) × Overtaken p a b rid q t
      × (records t.bytes ≡ records p.bytes ++ as_record a ∷ [])
  insert_tuple-lost = (
    record { page_id = p.page_id; slot_num = count p.bytes },
    record p { bytes = after_insert p.bytes b ok here_b; is_dirty = true },
    record p {
      bytes = placed (after_insert p.bytes b ok here_b) a (count p.bytes) (free p.bytes - length a);
      is_dirty = true;
    },
    (
      get_tuple_count-count p,
      get_free_space_pointer-free p,
      insert_tuple-place_tuple a p ok short_a room_a,
      insert_tuple-after_insert b p ok short_b here_b,
      place_tuple-placed a (count p.bytes) (free p.bytes) _ (omega arith) (omega (arith, ok.inside))
          (omega (arith, here_a)) (after_insert-Fits p.bytes a ok here_a),
    ),
    lost,
  )
    where
      here_a : 12 + count p.bytes * 4 + (length a + 4) ≤ free p.bytes
      here_a = omega (arith, ok.room, room_a)

      here_b : 12 + count p.bytes * 4 + (length b + 4) ≤ free p.bytes
      here_b = omega (arith, ok.room, room_b)

      lost :
          records (overwritten p.bytes a b ok here_a here_b) ≡ records p.bytes ++ as_record a ∷ []
      lost = records-overwritten p.bytes a b ok here_a here_b
