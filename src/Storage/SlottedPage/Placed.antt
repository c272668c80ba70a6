-- ===== src/Storage/SlottedPage/Placed.antt =====
-- The bytes that an insertion writes, and what they leave alone.
use stingdb.Base.{
  ℕ, ◌+◌, ◌-◌, ◌*◌, ◌≤◌, ◌<◌, ◌≡◌, refl, ap, ap₂, ◌∙◌, ◌⊎◌, inl, inr, List, [], ◌∷◌, ◌++◌, Option,
  none, some, ◌==◌, if◌then◌else◌, length, arith,
}
use native.Mathlib.Decide.{dec_lt}
use native.Mathlib.Numerals.{add-one}
use stingdb.Base.Bytes.{
  Bytes, store, load, encode, decode, length-encode, load-store_self, load-store_apart,
}
use stingdb.Storage.SlottedPage.Layout.{
  field, count, free, slot_offset, slot_length, IsFormatted, record_at, records, records_below,
  records_below_ext, field_self, field_apart,
}

-- The bytes after `tuple` went to the end of the free space and its slot behind the `n` others.
unfoldable pub placed : Bytes → List ℕ → ℕ → ℕ → Bytes
placed m tuple n at =
    store
      (store (store (store (store m 10 (encode 2 at)) at tuple) (12 + n * 4) (encode 2 at))
        (12 + n * 4 + 2) (encode 2 (length tuple)))
      8 (encode 2 (n + 1))

-- How a slot shows a record: one of length 0 cannot be told from a tombstone.
unfoldable pub as_record : List ℕ → Option (List ℕ)
as_record [] = none
as_record (b ∷ bs) = some (b ∷ bs)

as_record_lem : (t : List ℕ) → (if length t == 0 then none else some t) ≡ as_record t
unfolding as_record
as_record_lem [] = refl
as_record_lem (b ∷ bs) = ground arith

-- The record fits between the slots and the other records.
abbrev pub Fits : ℕ → List ℕ → ℕ → Type 0
Fits n tuple at = (12 + n * 4 + 4 ≤ at) × (at + length tuple ≤ 8192)

module _ (m : Bytes) (tuple : List ℕ) (n at : ℕ) (fits : Fits n tuple at) where
  load-placed_apart :
      (off w : ℕ)
      → (off + w ≤ 8) ⊎ (12 ≤ off)
      → (off + w ≤ 12 + n * 4) ⊎ (12 + n * 4 + 4 ≤ off)
      → (off + w ≤ at) ⊎ (at + length tuple ≤ off)
      → load (placed m tuple n at) off w ≡ load m off w
  unfolding placed
  load-placed_apart off w header slots body =
      load-store_apart _ 8 (encode 2 (n + 1)) off w (ground (arith, length-encode 2 (n + 1)))
      ∙ load-store_apart _ (12 + n * 4 + 2) (encode 2 (length tuple)) off w
          (ground (arith, length-encode 2 (length tuple)))
      ∙ load-store_apart _ (12 + n * 4) (encode 2 at) off w (ground (arith, length-encode 2 at))
      ∙ load-store_apart _ at tuple off w body
      ∙ load-store_apart _ 10 (encode 2 at) off w (ground (arith, length-encode 2 at))

  pub count-placed : n + 1 < 65536 → count (placed m tuple n at) ≡ n + 1
  unfolding placed
  count-placed h = field_self _ 8 2 (n + 1) h

  pub free-placed : free (placed m tuple n at) ≡ at
  unfolding placed
  free-placed =
      field_apart _ 8 (encode 2 (n + 1)) 10 2 (ground (arith, length-encode 2 (n + 1)))
      ∙ field_apart _ (12 + n * 4 + 2) (encode 2 (length tuple)) 10 2 (inl (omega arith))
      ∙ field_apart _ (12 + n * 4) (encode 2 at) 10 2 (inl (omega arith))
      ∙ field_apart _ at tuple 10 2 (inl (omega arith))
      ∙ field_self _ 10 2 at (omega arith)

  slot_offset-placed : slot_offset (placed m tuple n at) n ≡ at
  unfolding placed
  slot_offset-placed =
      field_apart _ 8 (encode 2 (n + 1)) (12 + n * 4) 2 (ground (arith, length-encode 2 (n + 1)))
      ∙ field_apart _ (12 + n * 4 + 2) (encode 2 (length tuple)) (12 + n * 4) 2 (inl (omega arith))
      ∙ field_self _ (12 + n * 4) 2 at (omega arith)

  slot_length-placed : slot_length (placed m tuple n at) n ≡ length tuple
  unfolding placed
  slot_length-placed =
      field_apart _ 8 (encode 2 (n + 1)) (12 + n * 4 + 2) 2
        (ground (arith, length-encode 2 (n + 1)))
      ∙ field_self _ (12 + n * 4 + 2) 2 (length tuple) (omega arith)

  body-placed : load (placed m tuple n at) at (length tuple) ≡ tuple
  unfolding placed
  body-placed =
      load-store_apart _ 8 (encode 2 (n + 1)) at (length tuple)
        (ground (arith, length-encode 2 (n + 1)))
      ∙ load-store_apart _ (12 + n * 4 + 2) (encode 2 (length tuple)) at (length tuple)
          (ground (arith, length-encode 2 (length tuple)))
      ∙ load-store_apart _ (12 + n * 4) (encode 2 at) at (length tuple)
          (ground (arith, length-encode 2 at))
      ∙ load-store_self _ at tuple

  -- The slots before and the bytes behind the new record are as they were.
  pub slot_offset-placed_lt :
      (i : ℕ) → i < n → slot_offset (placed m tuple n at) i ≡ slot_offset m i
  unfolding field
  slot_offset-placed_lt i h =
      ap decode (
        load-placed_apart (12 + i * 4) 2 (inr (omega arith)) (inl (omega arith))
          (inl (omega arith)))

  pub slot_length-placed_lt :
      (i : ℕ) → i < n → slot_length (placed m tuple n at) i ≡ slot_length m i
  unfolding field
  slot_length-placed_lt i h = ap decode (
      load-placed_apart (12 + i * 4 + 2) 2 (inr (omega arith)) (inl (omega arith))
        (inl (omega arith)))

  pub record_at-placed : record_at (placed m tuple n at) n ≡ as_record tuple
  unfolding record_at as_record
  record_at-placed = rw (slot_offset-placed, slot_length-placed, body-placed) (as_record_lem tuple)

  pub record_at-placed_lt :
      (i : ℕ)
      → i < n
      → at + length tuple ≤ slot_offset m i
      → record_at (placed m tuple n at) i ≡ record_at m i
  unfolding record_at
  record_at-placed_lt i h above = rw (
    slot_offset-placed_lt i h,
    slot_length-placed_lt i h,
    load-placed_apart (slot_offset m i) (slot_length m i) (inr (omega arith)) (inr (omega arith))
        (inr (omega arith)),
  )

module _ (m : Bytes) (tuple : List ℕ) (ok : IsFormatted m)
    (room : 12 + count m * 4 + (length tuple + 4) ≤ free m) where
  abbrev pub placed_at : ℕ
  placed_at = free m - length tuple

  abbrev pub after_insert : Bytes
  after_insert = placed m tuple (count m) placed_at

  pub after_insert-Fits : Fits (count m) tuple placed_at
  after_insert-Fits = (omega (arith, ok.inside), omega (arith, ok.inside))

  pub count-after_insert : count after_insert ≡ count m + 1
  count-after_insert =
      count-placed m tuple (count m) placed_at after_insert-Fits (omega (arith, ok.inside))

  pub free-after_insert : free after_insert ≡ free m - length tuple
  free-after_insert = free-placed m tuple (count m) placed_at after_insert-Fits

  slots-after_insert :
      (i : ℕ)
      → i < count after_insert
      → (free after_insert ≤ slot_offset after_insert i)
        × (slot_offset after_insert i + slot_length after_insert i ≤ 8192)
  slots-after_insert i h = elim (dec_lt i (count m)) [
    | yes old ↦ omega (
      arith,
      free-after_insert,
      slot_offset-placed_lt m tuple (count m) placed_at after_insert-Fits i old,
      slot_length-placed_lt m tuple (count m) placed_at after_insert-Fits i old,
      ok.above i old,
      ok.ends i old,
    )
    | no new ↦ rw (eq_last i new (rw count-after_insert at h)) (
        omega (
          arith,
          ok.inside,
          free-after_insert,
          slot_offset-placed m tuple (count m) placed_at after_insert-Fits,
          slot_length-placed m tuple (count m) placed_at after_insert-Fits,
        ))
  ]
    where
      eq_last : (k : ℕ) → ¬ (k < count m) → k < count m + 1 → k ≡ count m
      eq_last k a b = omega arith

  pub after_insert-IsFormatted : IsFormatted after_insert
  after_insert-IsFormatted = record {
    room = omega (arith, count-after_insert, free-after_insert);
    inside = omega (arith, ok.inside, free-after_insert);
    above = λ i h. (slots-after_insert i h).0;
    ends = λ i h. (slots-after_insert i h).1;
  }

  pub records-after_insert : records after_insert ≡ records m ++ as_record tuple ∷ []
  unfolding records records_below
  records-after_insert =
      rw (count-after_insert, add-one (count m))
        (ap₂ (λ xs (x : Option (List ℕ)). xs ++ x ∷ [])
          (records_below_ext m after_insert (count m) (λ i h.
            record_at-placed_lt m tuple (count m) placed_at after_insert-Fits i h
              (omega (arith, ok.above i h))))
          (record_at-placed m tuple (count m) placed_at after_insert-Fits))
