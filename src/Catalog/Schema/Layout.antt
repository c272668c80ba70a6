-- ===== src/Catalog/Schema/Layout.antt =====
-- Where the columns of a schema lie.
use stingdb.Base.{
  ℕ, zero, suc, ◌+◌, ◌%◌, ◌^◌, ◌≤◌, ◌<◌, ◌≡◌, ap, List, [], ◌∷◌, some, get_elem?, arith,
  some_injective,
}
use stingdb.Catalog.Schema.{Column, set_offsets, create_schema}

-- The sum of the lengths.
unfoldable pub width : List Column → ℕ
width [] = 0
width (col ∷ cols) = col.length + width cols

set_offsets-size :
    (from : ℕ) (cols : List Column)
    → from + width cols < 2 ^ 32
    → (set_offsets from cols).1 ≡ from + width cols
unfolding set_offsets width
set_offsets-size from [] h = omega arith
set_offsets-size from (col ∷ cols) h =
    let rest = set_offsets-size ((from + col.length) % 2 ^ 32) cols (omega arith) in
    omega (arith, rest)

set_offsets-bounds :
    (from : ℕ) (cols : List Column) (i : ℕ) (c : Column)
    → from + width cols < 2 ^ 32
    → get_elem? (set_offsets from cols).0 i ≡ some c
    → (from ≤ c.offset) × (c.offset + c.length ≤ from + width cols)
unfolding set_offsets width
set_offsets-bounds from [] i c h e = absurd (ground (arith, e))
set_offsets-bounds from (col ∷ cols) zero c h e =
    let first : record col { offset = from } ≡ c =
      some_injective (record col { offset = from }) c e in
    let at = ap (λ (x : Column). x.offset) first in
    let wide = ap (λ (x : Column). x.length) first in (omega (arith, at), omega (arith, at, wide))
set_offsets-bounds from (col ∷ cols) (suc i) c h e =
    let (lo, hi) = set_offsets-bounds ((from + col.length) % 2 ^ 32) cols i c (omega arith) e in
    (omega (arith, lo), omega (arith, hi))

set_offsets-apart :
    (from : ℕ) (cols : List Column) (i j : ℕ) (c d : Column)
    → from + width cols < 2 ^ 32
    → i < j
    → get_elem? (set_offsets from cols).0 i ≡ some c
    → get_elem? (set_offsets from cols).0 j ≡ some d
    → c.offset + c.length ≤ d.offset
unfolding set_offsets width
set_offsets-apart from cols i zero c d h lt e f = absurd (omega arith)
set_offsets-apart from [] i (suc j) c d h lt e f = absurd (ground (arith, f))
set_offsets-apart from (col ∷ cols) zero (suc j) c d h lt e f =
    let (lo, hi) = set_offsets-bounds ((from + col.length) % 2 ^ 32) cols j d (omega arith) f in
    let first : record col { offset = from } ≡ c =
      some_injective (record col { offset = from }) c e in
    let at = ap (λ (x : Column). x.offset) first in
    let wide = ap (λ (x : Column). x.length) first in omega (arith, at, wide, lo)
set_offsets-apart from (col ∷ cols) (suc i) (suc j) c d h lt e f =
    set_offsets-apart ((from + col.length) % 2 ^ 32) cols i j c d (omega arith) (omega arith) e f

-- Where the lengths add up to less than 32 bits hold, each column of a schema ends where a later one
-- begins, or before, and all lie within the fixed length of a tuple, which is the sum.
pub create_schema-apart :
    (cols : List Column) (i j : ℕ) (c d : Column)
    → width cols < 2 ^ 32
    → i < j
    → get_elem? (create_schema cols).columns i ≡ some c
    → get_elem? (create_schema cols).columns j ≡ some d
    → (c.offset + c.length ≤ d.offset)
      × (d.offset + d.length ≤ (create_schema cols).tuple_fixed_size)
      × ((create_schema cols).tuple_fixed_size ≡ width cols)
unfolding create_schema
create_schema-apart cols i j c d h lt e f = (
  set_offsets-apart 0 cols i j c d (omega arith) lt e f,
  omega
      (arith, set_offsets-bounds 0 cols j d (omega arith) f, set_offsets-size 0 cols (omega arith)),
  omega (arith, set_offsets-size 0 cols (omega arith)),
)
