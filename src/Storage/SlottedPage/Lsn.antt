-- ===== src/Storage/SlottedPage/Lsn.antt =====
-- The LSN in the header of a page.
use stingdb.Base.{ℕ, ◌+◌, ◌*◌, ◌≤◌, ◌<◌, ◌^◌, ◌≡◌, refl, ap, inr, arith}
use stingdb.Base.Bytes.{Bytes, store, load, encode, length-encode, load-store_apart}
use stingdb.Base.Effect.{done}
use stingdb.Storage.Page.{Page, copy_from}
use stingdb.Storage.SlottedPage.{get_lsn, set_lsn}
use stingdb.Storage.SlottedPage.Access.{copy_to-store}
use stingdb.Storage.SlottedPage.Layout.{
  field, count, space, slot_offset, slot_length, IsFormatted, record_at, records, records_below_ext,
  field_self, field_apart,
}

stamped : Bytes → ℕ → Bytes
stamped m lsn = store m 0 (encode 8 lsn)

get_lsn-stamped :
    (p : Page) (lsn : ℕ)
    → lsn < 2 ^ 64
    → get_lsn (record p { bytes = stamped p.bytes lsn })
      ≡ done lsn (record p { bytes = stamped p.bytes lsn })
unfolding get_lsn copy_from stamped
get_lsn-stamped p lsn h =
    ap (λ (v : ℕ). done v (record p { bytes = store p.bytes 0 (encode 8 lsn) }))
      (unfold field in field_self p.bytes 0 8 lsn h)

module _ (m : Bytes) (lsn : ℕ) where
  field-stamped : (off w : ℕ) → 8 ≤ off → field (stamped m lsn) off w ≡ field m off w
  unfolding stamped
  field-stamped off w h =
      field_apart m 0 (encode 8 lsn) off w (inr (omega (arith, length-encode 8 lsn)))

  load-stamped : (off n : ℕ) → 8 ≤ off → load (stamped m lsn) off n ≡ load m off n
  unfolding stamped
  load-stamped off n h =
      load-store_apart m 0 (encode 8 lsn) off n (inr (omega (arith, length-encode 8 lsn)))

  stamped-IsFormatted : IsFormatted m → IsFormatted (stamped m lsn)
  stamped-IsFormatted ok = record {
    room =
        omega (arith, ok.room, field-stamped 8 2 (omega arith), field-stamped 10 2 (omega arith));
    inside = omega (arith, ok.inside, field-stamped 10 2 (omega arith));
    above = λ i h. omega (
      arith,
      ok.above i (rw (field-stamped 8 2 (omega arith)) at h),
      field-stamped 10 2 (omega arith),
      field-stamped (12 + i * 4) 2 (omega arith),
    );
    ends = λ i h. omega (
      arith,
      ok.ends i (rw (field-stamped 8 2 (omega arith)) at h),
      field-stamped (12 + i * 4 + 2) 2 (omega arith),
      field-stamped (12 + i * 4) 2 (omega arith),
    );
  }

  records-stamped : IsFormatted m → records (stamped m lsn) ≡ records m
  unfolding records record_at
  records-stamped ok = rw (field-stamped 8 2 (omega arith)) (
      records_below_ext m (stamped m lsn) (count m) (λ i h. rw (
        field-stamped (12 + i * 4 + 2) 2 (omega arith),
        field-stamped (12 + i * 4) 2 (omega arith),
        load-stamped (slot_offset m i) (slot_length m i) (omega (arith, ok.above i h, ok.room)),
      )))

-- Setting an LSN of 64 bits on a formatted page is read back, and changes neither the records nor
-- the layout of the page.
pub set_lsn_lem :
    (lsn : ℕ) (p : Page)
    → lsn < 2 ^ 64
    → IsFormatted p.bytes
    → (q : Page) × (set_lsn lsn p ≡ done tt q)
      × (get_lsn q ≡ done lsn q)
      × IsFormatted q.bytes
      × (records q.bytes ≡ records p.bytes)
      × (space q.bytes ≡ space p.bytes)
      × (q.is_dirty ≡ p.is_dirty)
      × (q.page_id ≡ p.page_id)
      × (q.pin_count ≡ p.pin_count)
set_lsn_lem lsn p h ok = (
  record p { bytes = stamped p.bytes lsn },
  unfold set_lsn stamped in copy_to-store 0 (encode 8 lsn) p (omega (arith, length-encode 8 lsn)),
  get_lsn-stamped p lsn h,
  stamped-IsFormatted p.bytes lsn ok,
  records-stamped p.bytes lsn ok,
  omega (
    arith,
    field-stamped p.bytes lsn 8 2 (omega arith),
    field-stamped p.bytes lsn 10 2 (omega arith),
  ),
  refl,
  refl,
  refl,
)
