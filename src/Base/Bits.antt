-- ===== src/Base/Bits.antt =====
-- The binary digits of a number, and what the operations on digits do to each of them.
use Prim.Native.Nat.{
  ℕ, zero, suc, ◌+◌, ◌-◌, ◌*◌, ◌/◌, ◌%◌, ◌^◌, ◌≤◌, ◌<◌, min, max, digits, bit_and, bit_or,
  bit_and-bitwise, bit_or-bitwise,
}
use mathlib.Core.Path.{◌≡◌, refl, sym, ◌∙◌, ap}
use mathlib.Core.Logic.{◌≢◌}
use native.Mathlib.Nat.{pow-suc}
use native.Mathlib.Omega.{arith}

-- Digit `i` of `w`.
unfoldable pub bit : ℕ → ℕ → ℕ
bit w zero = w % 2
bit w (suc i) = bit (w / 2) i

pub bit-lt : (w i : ℕ) → bit w i < 2
unfolding bit
bit-lt w zero = omega arith
bit-lt w (suc i) = bit-lt (w / 2) i

-- An operation takes a number digit by digit. `z` is its result on 0.
module _ (z : ℕ → ℕ) (f : ℕ → ℕ → ℕ) where
  -- More digits to go than the number has change nothing.
  enough : (n m a b : ℕ) → a ≤ n → a ≤ m → digits z f n a b ≡ digits z f m a b
  enough zero zero a b p q = refl
  enough zero (suc m) zero b p q = refl
  enough zero (suc m) (suc a) b p q = absurd (omega (arith, p))
  enough (suc n) zero zero b p q = refl
  enough (suc n) zero (suc a) b p q = absurd (omega (arith, q))
  enough (suc n) (suc m) zero b p q = refl
  enough (suc n) (suc m) (suc a) b p q =
      ap (λ (k : ℕ). k * 2 + f (suc a % 2) (b % 2))
        (enough n m (suc a / 2) (b / 2) (omega (arith, p)) (omega (arith, q)))

  halves :
      ((b : ℕ) → z b ≡ z (b / 2) * 2 + f 0 (b % 2))
      → (a b : ℕ) → digits z f a a b ≡ digits z f (a / 2) (a / 2) (b / 2) * 2 + f (a % 2) (b % 2)
  halves law zero b = law b
  halves law (suc a) b =
      ap (λ (k : ℕ). k * 2 + f (suc a % 2) (b % 2))
        (enough a (suc a / 2) (suc a / 2) (b / 2) (omega arith) (omega arith))

bit_and-halves : (a b : ℕ) → bit_and a b ≡ bit_and (a / 2) (b / 2) * 2 + min (a % 2) (b % 2)
bit_and-halves a b =
    bit_and-bitwise a b
    ∙ halves (λ b. 0) min (λ b. omega arith) a b
    ∙ ap (λ (k : ℕ). k * 2 + min (a % 2) (b % 2)) (sym (bit_and-bitwise (a / 2) (b / 2)))

bit_or-halves : (a b : ℕ) → bit_or a b ≡ bit_or (a / 2) (b / 2) * 2 + max (a % 2) (b % 2)
bit_or-halves a b =
    bit_or-bitwise a b
    ∙ halves (λ b. b) max (λ b. omega arith) a b
    ∙ ap (λ (k : ℕ). k * 2 + max (a % 2) (b % 2)) (sym (bit_or-bitwise (a / 2) (b / 2)))

pub bit-and : (a b i : ℕ) → bit (bit_and a b) i ≡ min (bit a i) (bit b i)
unfolding bit
bit-and a b zero = omega (arith, bit_and-halves a b)
bit-and a b (suc i) =
    ap (λ (k : ℕ). bit k i) (omega (arith, bit_and-halves a b)) ∙ bit-and (a / 2) (b / 2) i

pub bit-or : (a b i : ℕ) → bit (bit_or a b) i ≡ max (bit a i) (bit b i)
unfolding bit
bit-or a b zero = omega (arith, bit_or-halves a b)
bit-or a b (suc i) =
    ap (λ (k : ℕ). bit k i) (omega (arith, bit_or-halves a b)) ∙ bit-or (a / 2) (b / 2) i

pub bit-zero : (i : ℕ) → bit 0 i ≡ 0
unfolding bit
bit-zero zero = refl
bit-zero (suc i) = bit-zero i

-- The number whose only digit is digit `n`.
pub bit-pow_self : (n : ℕ) → bit (2 ^ n) n ≡ 1
unfolding bit
bit-pow_self zero = refl
bit-pow_self (suc n) = ap (λ (k : ℕ). bit k n) (omega (arith, pow-suc 2 n)) ∙ bit-pow_self n

pub bit-pow_ne : (n i : ℕ) → i ≢ n → bit (2 ^ n) i ≡ 0
unfolding bit
bit-pow_ne zero zero ne = absurd (ne refl)
bit-pow_ne zero (suc i) ne = bit-zero i
bit-pow_ne (suc n) zero ne = omega (arith, pow-suc 2 n)
bit-pow_ne (suc n) (suc i) ne =
    ap (λ (k : ℕ). bit k i) (omega (arith, pow-suc 2 n)) ∙ bit-pow_ne n i (λ e. ne (ap suc e))

-- The complement in `n` digits.
pub bit-not : (n w i : ℕ) → w < 2 ^ n → i < n → bit (2 ^ n - 1 - w) i ≡ 1 - bit w i
unfolding bit
bit-not zero w i small below = absurd (omega (arith, below))
bit-not (suc n) w zero small below = omega (arith, small, pow-suc 2 n)
bit-not (suc n) w (suc i) small below =
    ap (λ (k : ℕ). bit k i) (omega (arith, small, pow-suc 2 n))
    ∙ bit-not n (w / 2) i (omega (arith, small, pow-suc 2 n)) (omega (arith, below))

none_left : (n a : ℕ) → digits (λ b. 0) min n a 0 ≡ 0
none_left zero a = refl
none_left (suc n) zero = refl
none_left (suc n) (suc a) = omega (arith, none_left n (suc a / 2))

-- A test of one digit.
pub bit_and-pow : (w n : ℕ) → bit_and w (2 ^ n) ≡ bit w n * 2 ^ n
unfolding bit
bit_and-pow w zero =
    omega (arith, bit_and-halves w 1, bit_and-bitwise (w / 2) 0, none_left (w / 2) (w / 2))
bit_and-pow w (suc n) =
    bit_and-halves w (2 ^ suc n)
    ∙ omega (arith, pow-suc 2 n)
    ∙ ap (λ (k : ℕ). bit_and (w / 2) k * 2) half
    ∙ ap (λ (k : ℕ). k * 2) (bit_and-pow (w / 2) n)
    ∙ grind (arith, pow-suc 2 n)
  where
    half : 2 ^ suc n / 2 ≡ 2 ^ n
    half = omega (arith, pow-suc 2 n)
