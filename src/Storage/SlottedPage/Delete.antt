-- ===== src/Storage/SlottedPage/Delete.antt =====
-- `mark_delete` on a formatted page.
use native.Mathlib.Decide.{ℕ_discrete}
use stingdb.Base.{
  ℕ, ◌+◌, ◌*◌, ◌≤◌, ◌<◌, ◌≡◌, ◌≢◌, refl, sym, ◌⊎◌, inl, true, false, none, length, get_elem?, set,
  arith, le→leb, lt→leb, length-set, get_elem?-set_self, get_elem?-set_ne, get_elem?_ext,
}
use stingdb.Base.Bytes.{Bytes, store, load, encode, length-encode, load-store_apart}
use stingdb.Base.Effect.{done}
use stingdb.Storage.Page.{Page, set_dirty}
use stingdb.Storage.SlottedPage.{Rid, slot_at, mark_delete}
use stingdb.Storage.SlottedPage.Access.{get_tuple_count-count, copy_to-store}
use stingdb.Storage.SlottedPage.Layout.{
  space, field, count, free, slot_offset, slot_length, IsFormatted, record_at, records, field_self,
  field_apart,
}
use stingdb.Storage.SlottedPage.Read.{length-records, get_elem?-records}

-- The bytes after the length of slot `i` was set to 0.
unfoldable pub buried : Bytes → ℕ → Bytes
buried m i = store m (12 + i * 4 + 2) (encode 2 0)

module _ (m : Bytes) (ok : IsFormatted m) (i : ℕ) (old : i < count m) where
  field-buried :
      (off w : ℕ)
      → (off + w ≤ 12 + i * 4 + 2) ⊎ (12 + i * 4 + 4 ≤ off)
      → field (buried m i) off w ≡ field m off w
  unfolding buried
  field-buried off w h =
      field_apart m (12 + i * 4 + 2) (encode 2 0) off w (ground (arith, length-encode 2 0))

  load-buried : (off n : ℕ) → 12 + i * 4 + 4 ≤ off → load (buried m i) off n ≡ load m off n
  unfolding buried
  load-buried off n h =
      load-store_apart m (12 + i * 4 + 2) (encode 2 0) off n (ground (arith, length-encode 2 0))

  slot_length-buried : slot_length (buried m i) i ≡ 0
  unfolding buried
  slot_length-buried = field_self m (12 + i * 4 + 2) 2 0 (omega arith)

  slot_length-buried_ne : (j : ℕ) → j ≢ i → slot_length (buried m i) j ≡ slot_length m j
  slot_length-buried_ne j h = field-buried (12 + j * 4 + 2) 2 (omega arith)

  slot_offset-buried : (j : ℕ) → slot_offset (buried m i) j ≡ slot_offset m j
  slot_offset-buried j = field-buried (12 + j * 4) 2 (omega arith)

  record_at-buried : record_at (buried m i) i ≡ none
  unfolding record_at
  record_at-buried = rw slot_length-buried

  record_at-buried_ne : (j : ℕ) → j < count m → j ≢ i → record_at (buried m i) j ≡ record_at m j
  unfolding record_at
  record_at-buried_ne j h ne = rw (
    slot_length-buried_ne j ne,
    slot_offset-buried j,
    load-buried (slot_offset m j) (slot_length m j) (omega (arith, ok.above j h, ok.room)),
  )

  count-buried : count (buried m i) ≡ count m
  count-buried = field-buried 8 2 (inl (omega arith))

  free-buried : free (buried m i) ≡ free m
  free-buried = field-buried 10 2 (inl (omega arith))

  buried-IsFormatted : IsFormatted (buried m i)
  buried-IsFormatted = record {
    room = omega (arith, ok.room, count-buried, free-buried);
    inside = omega (arith, ok.inside, free-buried);
    above =
        λ j h. omega (arith, free-buried, slot_offset-buried j, ok.above j (rw count-buried at h));
    ends = λ j h. ends j (rw count-buried at h) (ℕ_discrete j i);
  }
    where
      ends :
          (j : ℕ)
          → j < count m
          → Dec (j ≡ i)
          → slot_offset (buried m i) j + slot_length (buried m i) j ≤ 8192
      ends j h (yes e) =
          rw (e, slot_length-buried, slot_offset-buried i) (omega (arith, ok.ends i old))
      ends j h (no ne) = rw (slot_length-buried_ne j ne, slot_offset-buried j) (ok.ends j h)

  records-buried : records (buried m i) ≡ set (records m) i none
  records-buried =
      get_elem?_ext _ _
        (omega (
          arith,
          length-records (buried m i),
          length-records m,
          length-set (records m) i none,
          count-buried,
        ))
        at_index
    where
      at_index :
          (j : ℕ)
          → j < length (records (buried m i))
          → get_elem? (records (buried m i)) j ≡ get_elem? (set (records m) i none) j
      at_index j h = elim (ℕ_discrete j i) [
        | yes e ↦ rw (
          e,
          get_elem?-set_self (records m) i none (omega (arith, length-records m)),
          get_elem?-records (buried m i) i (omega (arith, count-buried)),
          record_at-buried,
        )
        | no ne ↦ rw (
          get_elem?-set_ne (records m) i j none (λ e. ne (sym e)),
          get_elem?-records (buried m i) j
              (omega (arith, count-buried, length-records (buried m i))),
          get_elem?-records m j (omega (arith, count-buried, length-records (buried m i))),
          record_at-buried_ne j (omega (arith, count-buried, length-records (buried m i))) ne,
        )
      ]

module _ (p : Page) (ok : IsFormatted p.bytes) (rid : Rid) where
  -- A deletion of a slot that is there in a formatted page turns it into a tombstone, touches no other
  -- record and marks the page dirty.
  pub mark_delete_in :
      rid.slot_num < count p.bytes
      → (q : Page) × (mark_delete rid p ≡ done true q)
        × IsFormatted q.bytes
        × (records q.bytes ≡ set (records p.bytes) rid.slot_num none)
        × (space q.bytes ≡ space p.bytes)
        × (q.is_dirty ≡ true)
        × (q.page_id ≡ p.page_id)
        × (q.pin_count ≡ p.pin_count)
  mark_delete_in h = (
    record p { bytes = buried p.bytes rid.slot_num; is_dirty = true },
    call,
    buried-IsFormatted p.bytes ok rid.slot_num h,
    records-buried p.bytes ok rid.slot_num h,
    omega (arith, count-buried p.bytes ok rid.slot_num h, free-buried p.bytes ok rid.slot_num h),
    refl,
    refl,
    refl,
  )
    where
      slot_eq : slot_at rid.slot_num + 2 ≡ 12 + rid.slot_num * 4 + 2
      slot_eq = omega (arith, ok.room, ok.inside)

      call :
          mark_delete rid p
          ≡ done true (record p { bytes = buried p.bytes rid.slot_num; is_dirty = true })
      call =
          unfold mark_delete buried set_dirty in
          rw (
            get_tuple_count-count p,
            lt→leb (count p.bytes) rid.slot_num h,
            slot_eq,
            copy_to-store (12 + rid.slot_num * 4 + 2) (encode 2 0) p
                (omega (arith, length-encode 2 0, ok.room, ok.inside)),
          )

  -- A deletion of a slot that is not there returns false and changes nothing.
  pub mark_delete_out : count p.bytes ≤ rid.slot_num → mark_delete rid p ≡ done false p
  unfolding mark_delete
  mark_delete_out h = rw (get_tuple_count-count p, le→leb (count p.bytes) rid.slot_num h)
