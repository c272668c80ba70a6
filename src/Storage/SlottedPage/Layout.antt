-- ===== src/Storage/SlottedPage/Layout.antt =====
-- What the bytes of a slotted page mean: its header, its slots, and the records behind them.
use stingdb.Base.{
  ℕ, zero, suc, ◌+◌, ◌-◌, ◌*◌, ◌^◌, ◌≤◌, ◌<◌, ◌≡◌, refl, ap, ap₂, ◌∙◌, ◌⊎◌, List, [], ◌∷◌, ◌++◌,
  Option, none, some, ◌==◌, if◌then◌else◌, length, get_elem?, arith, length-append,
  get_elem?-append_left, get_elem?-append_last,
}
use stingdb.Base.Bytes.{
  Bytes, store, load, encode, decode, decode-encode, length-encode, load-store_self,
  load-store_apart,
}

-- The unsigned integer of `w` bytes at an offset.
unfoldable pub field : Bytes → ℕ → ℕ → ℕ
field m off w = decode (load m off w)

abbrev pub count : Bytes → ℕ
count m = field m 8 2

abbrev pub free : Bytes → ℕ
free m = field m 10 2

abbrev pub slot_offset : Bytes → ℕ → ℕ
slot_offset m i = field m (12 + i * 4) 2

abbrev pub slot_length : Bytes → ℕ → ℕ
slot_length m i = field m (12 + i * 4 + 2) 2

-- The free bytes between the slots and the records.
abbrev pub space : Bytes → ℕ
space m = free m - (12 + count m * 4)

-- Slots grow from the header up, records from the end of the page down, and every record lies in
-- the area above the free space.
pub record IsFormatted (m : Bytes) : Type 0 where
  pub room : 12 + count m * 4 ≤ free m
  pub inside : free m ≤ 8192
  pub above : (i : ℕ) → i < count m → free m ≤ slot_offset m i
  pub ends : (i : ℕ) → i < count m → slot_offset m i + slot_length m i ≤ 8192

-- The record behind a slot; a slot of length 0 is a tombstone.
unfoldable pub record_at : Bytes → ℕ → Option (List ℕ)
record_at m i =
    if slot_length m i == 0 then none else some (load m (slot_offset m i) (slot_length m i))

unfoldable pub records_below : Bytes → ℕ → List (Option (List ℕ))
records_below m zero = []
records_below m (suc n) = records_below m n ++ record_at m n ∷ []

-- The page as a sequence of records, by slot number.
unfoldable pub records : Bytes → List (Option (List ℕ))
records m = records_below m (count m)

pub length-records_below : (m : Bytes) (n : ℕ) → length (records_below m n) ≡ n
unfolding records_below
length-records_below m zero = refl
length-records_below m (suc n) =
    omega (arith, length-append (records_below m n) (record_at m n ∷ []), length-records_below m n)

pub get_elem?-records_below :
    (m : Bytes) (n i : ℕ) → i < n → get_elem? (records_below m n) i ≡ some (record_at m i)
unfolding records_below
get_elem?-records_below m zero i h = elim h [ ]
get_elem?-records_below m (suc n) i h = ground (
  arith,
  length-records_below m n,
  get_elem?-records_below m n i,
  get_elem?-append_left (records_below m n) (record_at m n ∷ []) i,
  get_elem?-append_last (records_below m n) (record_at m n),
)

pub records_below_ext :
    (m m' : Bytes) (n : ℕ)
    → ((i : ℕ) → i < n → record_at m' i ≡ record_at m i)
    → records_below m' n ≡ records_below m n
unfolding records_below
records_below_ext m m' zero h = refl
records_below_ext m m' (suc n) h =
    ap₂ (λ xs (x : Option (List ℕ)). xs ++ x ∷ [])
      (records_below_ext m m' n (λ i q. h i (omega arith))) (h n (omega arith))

-- A field that was written is read back; one that lies apart is as before.
pub field_self :
    (m : Bytes) (off w v : ℕ) → v < 256 ^ w → field (store m off (encode w v)) off w ≡ v
unfolding field
field_self m off w v h =
    ap decode (subst_length (length-encode w v) (load-store_self m off (encode w v)))
    ∙ decode-encode w v h
  where
    subst_length :
        length (encode w v) ≡ w
        → load (store m off (encode w v)) off (length (encode w v)) ≡ encode w v
        → load (store m off (encode w v)) off w ≡ encode w v
    subst_length e p = rw e at p

pub field_apart :
    (m : Bytes) (off : ℕ) (src : List ℕ) (at w : ℕ)
    → (at + w ≤ off) ⊎ (off + length src ≤ at)
    → field (store m off src) at w ≡ field m at w
unfolding field
field_apart m off src at w h = ap decode (load-store_apart m off src at w h)
