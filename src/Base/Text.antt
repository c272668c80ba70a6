-- ===== src/Base/Text.antt =====
-- Texts as the codes of their characters, and unsigned numbers in decimal.
use Prim.Native.Char.{code}
use Prim.Native.String.{String}
use Prim.Native.Nat.{ℕ, zero, suc, ◌+◌, ◌-◌, ◌*◌, ◌/◌, ◌%◌, ◌^◌, ◌≤◌, ◌<◌}
use mathlib.Core.Path.{◌≡◌, ap, ◌∙◌}
use mathlib.Core.Logic.{inl, inr}
use mathlib.Core.Bool.{Bool, ◌&&◌}
use mathlib.Core.List.{List, [], ◌∷◌, ◌++◌, append_assoc}
use native.Mathlib.Nat.{pow-suc}
use native.Mathlib.Omega.{arith}
use stingdb.Base.Compare.{ltb, leb, if◌then◌else◌, Bool-cases, ltb→lt}
use stingdb.Base.Lists.{length, length-append}

abbrev pub codes : String → List ℕ
codes String.[] = []
codes (String.◌∷◌ c s) = code c ∷ codes s

-- At most `fuel` digits, the last one last.
unfoldable pub digits : ℕ → ℕ → List ℕ
digits zero n = []
digits (suc fuel) n =
    let rest = digits fuel (n / 10) in
    if ltb n 10 then (b'0' + n) ∷ [] else rest ++ (b'0' + n % 10) ∷ []

-- `std::to_string` of an unsigned number of at most 64 bits, which has at most 20 digits.
abbrev pub decimal : ℕ → List ℕ
decimal = digits 20

abbrev pub is_digit : ℕ → Bool
is_digit c = leb b'0' c && leb c b'9'

-- The number that a text goes on with, behind the digits that make `acc`.
unfoldable pub number : ℕ → List ℕ → ℕ
number acc [] = acc
number acc (c ∷ cs) =
    let rest = number (10 * acc + (c - b'0')) cs in if is_digit c then rest else acc

pub length-digits : (fuel n : ℕ) → length (digits fuel n) ≤ fuel
unfolding digits
length-digits zero n = omega arith
length-digits (suc fuel) n = ground (
  arith,
  length-digits fuel (n / 10),
  length-append (digits fuel (n / 10)) ((b'0' + n % 10) ∷ []),
)

number-digit :
    (acc d n : ℕ) (rest : List ℕ)
    → d < 10
    → 10 * acc + d ≡ n
    → number acc ((b'0' + d) ∷ rest) ≡ number n rest
unfolding number
number-digit acc d n rest h e = ground arith

-- A number is read back, with what stands behind it.
pub number-digits :
    (fuel n : ℕ) (rest : List ℕ) → n < 10 ^ fuel → number 0 (digits fuel n ++ rest) ≡ number n rest
unfolding digits
number-digits zero n rest h = ground arith
number-digits (suc fuel) n rest h = elim (Bool-cases (ltb n 10)) [
  | inl one ↦ rw one (number-digit 0 n n rest (ltb→lt n 10 one) (omega arith))
  | inr more ↦ rw more (
      ap (number 0) (append_assoc (digits fuel (n / 10)) ((b'0' + n % 10) ∷ []) rest)
      ∙ number-digits fuel (n / 10) ((b'0' + n % 10) ∷ rest) (omega (arith, pow-suc 10 fuel))
      ∙ number-digit (n / 10) (n % 10) n rest (omega arith) (omega arith))
]
