-- ===== src/Storage/SlottedPage/Read.antt =====
-- `get_tuple` and `mark_delete` on a formatted page.
use native.Mathlib.Decide.{dec_lt}
use stingdb.Base.{
  ℕ, ◌+◌, ◌*◌, ◌≤◌, ◌<◌, ◌≡◌, inl, inr, List, Option, none, some, ◌==◌, length, get_elem?, arith,
  Bool-cases, le→leb, lt→leb, get_elem?-ge,
}
use stingdb.Base.Bytes.{Bytes, load}
use stingdb.Base.Effect.{done}
use stingdb.Storage.Page.{Page, copy_from}
use stingdb.Storage.SlottedPage.{Rid, slot_at, get_tuple}
use stingdb.Storage.SlottedPage.Access.{get_tuple_count-count}
use stingdb.Storage.SlottedPage.Layout.{
  field, count, slot_offset, slot_length, IsFormatted, record_at, records, length-records_below,
  get_elem?-records_below,
}

-- What a reader gets for a slot: nothing for a slot that is not there, nor for a tombstone.
abbrev pub visible : Option (Option (List ℕ)) → Option (List ℕ)
visible none = none
visible (some r) = r

pub length-records : (m : Bytes) → length (records m) ≡ count m
unfolding records
length-records m = length-records_below m (count m)

pub get_elem?-records :
    (m : Bytes) (i : ℕ) → i < count m → get_elem? (records m) i ≡ some (record_at m i)
unfolding records
get_elem?-records m i h = get_elem?-records_below m (count m) i h

copy_from-load :
    (off n : ℕ) (p : Page) → off + n ≤ 8192 → copy_from off n p ≡ done (load p.bytes off n) p
unfolding copy_from
copy_from-load off n p h = rw (le→leb _ _ h)

module _ (p : Page) (ok : IsFormatted p.bytes) (rid : Rid) where
  get_tuple_in :
      rid.slot_num < count p.bytes → get_tuple rid p ≡ done (record_at p.bytes rid.slot_num) p
  unfolding get_tuple record_at field
  get_tuple_in h =
      rw
        (
          get_tuple_count-count p,
          lt→leb (count p.bytes) rid.slot_num h,
          slot_eq,
          copy_from-load (12 + rid.slot_num * 4) 2 p (omega (arith, ok.room, ok.inside)),
          copy_from-load (12 + rid.slot_num * 4 + 2) 2 p (omega (arith, ok.room, ok.inside)),
        )
        (elim (Bool-cases (slot_length p.bytes rid.slot_num == 0)) [
          | inl dead ↦ rw dead
          | inr live ↦ rw (
            live,
            copy_from-load (slot_offset p.bytes rid.slot_num) (slot_length p.bytes rid.slot_num) p
                (ok.ends rid.slot_num h),
          )
        ])
    where
      slot_eq : slot_at rid.slot_num ≡ 12 + rid.slot_num * 4
      slot_eq = omega (arith, ok.room, ok.inside)

  -- A read of a formatted page leaves it alone, and gives what the sequence of records shows.
  pub get_tuple-visible :
      get_tuple rid p ≡ done (visible (get_elem? (records p.bytes) rid.slot_num)) p
  get_tuple-visible = elim (dec_lt rid.slot_num (count p.bytes)) [
    | yes h ↦ rw (get_elem?-records p.bytes rid.slot_num h) (get_tuple_in h)
    | no h ↦
        rw (get_elem?-ge (records p.bytes) rid.slot_num (omega (arith, length-records p.bytes))) (
          unfold get_tuple in
          rw (get_tuple_count-count p, le→leb (count p.bytes) rid.slot_num (omega arith)))
  ]
