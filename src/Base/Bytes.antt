-- ===== src/Base/Bytes.antt =====
-- The bytes of a memory block, and unsigned integers stored there by `memcpy` on a little-endian
-- machine.
use Prim.Native.Nat.{ℕ, zero, suc, ◌+◌, ◌-◌, ◌*◌, ◌/◌, ◌%◌, ◌^◌, ◌≤◌, ◌<◌}
use mathlib.Core.Path.{◌≡◌, refl, ap, ap₂}
use mathlib.Core.Logic.{◌⊎◌}
use mathlib.Core.Bool.{◌&&◌}
use mathlib.Core.List.{List, [], ◌∷◌}
use native.Mathlib.Nat.{pow-suc}
use native.Mathlib.Omega.{arith}
use stingdb.Base.Compare.{ltb, leb, if◌then◌else◌}
use stingdb.Base.Lists.{length, get_or}

-- The byte at each offset of a block.
abbrev pub Bytes : Type 0
Bytes = ℕ → ℕ

abbrev pub zeros : Bytes
zeros i = 0

-- `memcpy(block + off, src, src.size())`
unfoldable pub store : Bytes → ℕ → List ℕ → Bytes
store m off src i = if leb off i && ltb i (off + length src) then get_or src (i - off) 0 else m i

-- The `n` bytes from `off` on.
unfoldable pub load : Bytes → ℕ → ℕ → List ℕ
load m off zero = []
load m off (suc n) = m off ∷ load m (off + 1) n

-- The bytes of an unsigned integer of `w` bytes, lowest first, and back.
unfoldable pub encode : ℕ → ℕ → List ℕ
encode zero v = []
encode (suc w) v = (v % 256) ∷ encode w (v / 256)

unfoldable pub decode : List ℕ → ℕ
decode [] = 0
decode (b ∷ bs) = b + 256 * decode bs

pub length-encode : (w v : ℕ) → length (encode w v) ≡ w
unfolding encode
length-encode zero v = refl
length-encode (suc w) v = ap suc (length-encode w (v / 256))

pub length-load : (m : Bytes) (off n : ℕ) → length (load m off n) ≡ n
unfolding load
length-load m off zero = refl
length-load m off (suc n) = ap suc (length-load m (off + 1) n)

-- Reading back a value that fits the width.
pub decode-encode : (w v : ℕ) → v < 256 ^ w → decode (encode w v) ≡ v
unfolding encode decode
decode-encode zero v h = omega arith
decode-encode (suc w) v h =
    omega (arith, pow-suc 256 w, decode-encode w (v / 256) (omega (arith, pow-suc 256 w)))

pub store_in :
    (m : Bytes) (off : ℕ) (src : List ℕ) (j : ℕ)
    → j < length src
    → store m off src (off + j) ≡ get_or src j 0
unfolding store
store_in m off src j h = ground arith

pub store_out :
    (m : Bytes) (off : ℕ) (src : List ℕ) (i : ℕ)
    → (i < off) ⊎ (off + length src ≤ i)
    → store m off src i ≡ m i
unfolding store
store_out m off src i h = ground arith

-- Blocks that agree on a range are loaded alike.
pub load_ext :
    (m m' : Bytes) (off n : ℕ)
    → ((j : ℕ) → j < n → m (off + j) ≡ m' (off + j))
    → load m off n ≡ load m' off n
unfolding load
load_ext m m' off zero h = refl
load_ext m m' off (suc n) h = ap₂ ◌∷◌ (first (h 0 (omega arith))) (load_ext m m' (off + 1) n rest)
  where
    first : m (off + 0) ≡ m' (off + 0) → m off ≡ m' off
    first e = ground arith

    rest : (j : ℕ) → j < n → m (off + 1 + j) ≡ m' (off + 1 + j)
    rest j q = ground (arith, h (suc j))

load_list :
    (m : Bytes) (off : ℕ) (src : List ℕ)
    → ((j : ℕ) → j < length src → m (off + j) ≡ get_or src j 0)
    → load m off (length src) ≡ src
unfolding load
load_list m off [] h = refl
load_list m off (x ∷ xs) h = ap₂ ◌∷◌ (first (h 0 (omega arith))) (load_list m (off + 1) xs rest)
  where
    first : m (off + 0) ≡ x → m off ≡ x
    first e = ground arith

    rest : (j : ℕ) → j < length xs → m (off + 1 + j) ≡ get_or xs j 0
    rest j q = ground (arith, h (suc j))

-- What was stored is loaded.
pub load-store_self :
    (m : Bytes) (off : ℕ) (src : List ℕ) → load (store m off src) off (length src) ≡ src
load-store_self m off src = load_list (store m off src) off src (store_in m off src)

-- A store elsewhere is not seen.
pub load-store_apart :
    (m : Bytes) (off : ℕ) (src : List ℕ) (at n : ℕ)
    → (at + n ≤ off) ⊎ (off + length src ≤ at)
    → load (store m off src) at n ≡ load m at n
load-store_apart m off src at n h =
    load_ext (store m off src) m at n (λ j q. store_out m off src (at + j) (ground arith))
