-- ===== src/Execution/Vector/NullMask.antt =====
-- The null mask, bit by bit, as a function from an index to a Boolean.
use Prim.Native.Nat.{bit_and, bit_or}
use native.Mathlib.Nat.{pow-suc}
use native.Mathlib.Decide.{ℕ_discrete}
use stingdb.Base.{
  ℕ, zero, suc, ◌-◌, ◌*◌, ◌/◌, ◌%◌, ◌^◌, ◌≤◌, ◌<◌, ◌≡◌, ◌≢◌, refl, sym, ◌∙◌, ap, Bool, true, false,
  not, List, [], ◌∷◌, none, some, ◌==◌, if◌then◌else◌, get_elem?, get_elem?-set_self,
  get_elem?-set_ne, set, length, length-set, arith, eq→==, ne→==,
}
use stingdb.Base.Bits.{bit, bit-lt, bit-and, bit-or, bit-pow_self, bit-pow_ne, bit-not, bit_and-pow}
use stingdb.Base.Effect.{Outcome, done, thrown, fault}
use stingdb.Execution.Vector.{FlatVector, mask_word, set_null, is_null}

-- How many values the mask has bits for.
abbrev pub mask_bits : {T : Type 0} → FlatVector T → ℕ
mask_bits v = 64 * length v.null_mask

-- The mask says of each value in its range whether it is null, and nothing of one outside.
pub record Masks {T : Type 0} (v : FlatVector T) (nulls : ℕ → Bool) : Type 0 where
  pub inside : (i : ℕ) → i < mask_bits v → is_null i v ≡ done (nulls i) v
  pub outside : (i : ℕ) → mask_bits v ≤ i → is_null i v ≡ fault

abbrev pub changed : (ℕ → Bool) → ℕ → Bool → ℕ → Bool
changed nulls i b j = if j == i then b else nulls j

positive : (n : ℕ) → 0 < 2 ^ n
positive zero = omega arith
positive (suc n) = omega (arith, pow-suc 2 n, positive n)

grows : (n m : ℕ) → n < m → 2 ^ n < 2 ^ m
grows n zero h = absurd (omega (arith, h))
grows n (suc m) h = elim (ℕ_discrete n m) [
  | yes e ↦ rw e (omega (arith, pow-suc 2 m, positive m))
  | no ne ↦ omega (arith, pow-suc 2 m, grows n m (grind (arith, h, ne)))
]

digit_test : (d p : ℕ) → d < 2 → 0 < p → not (d * p == 0) ≡ (d == 1)
digit_test zero p small pos = rw (eq→== (0 * p) 0 (omega arith)) refl
digit_test (suc zero) p small pos = rw (ne→== (1 * p) 0 (λ e. omega (arith, e, pos))) refl
digit_test (suc (suc d)) p small pos = absurd (omega (arith, small))

word_in : (xs : List ℕ) (i : ℕ) → i < length xs → (w : ℕ) × (get_elem? xs i ≡ some w)
word_in [] i h = elim h [ ]
word_in (x ∷ xs) zero h = (x, refl)
word_in (x ∷ xs) (suc i) h = word_in xs i (omega (arith, h))

word_out : (xs : List ℕ) (i : ℕ) → length xs ≤ i → get_elem? xs i ≡ none
word_out [] i h = refl
word_out (x ∷ xs) zero h = absurd (omega (arith, h))
word_out (x ∷ xs) (suc i) h = word_out xs i (omega (arith, h))

-- The word after a bit is set or cleared.
abbrev written : Bool → ℕ → ℕ → ℕ
written is_null word n = if is_null then bit_or word (2 ^ n) else bit_and word (2 ^ 64 - 1 - 2 ^ n)

written_self : (b : Bool) (w n : ℕ) → n < 64 → (bit (written b w n) n == 1) ≡ b
written_self true w n h =
    eq→== (bit (bit_or w (2 ^ n)) n) 1
      (omega (arith, bit-or w (2 ^ n) n, bit-pow_self n, bit-lt w n))
written_self false w n h = ne→== (bit (bit_and w (2 ^ 64 - 1 - 2 ^ n)) n) 1 (λ e. omega (
  arith,
  e,
  bit-and w (2 ^ 64 - 1 - 2 ^ n) n,
  bit-not 64 (2 ^ n) n (grows n 64 h) h,
  bit-pow_self n,
))

written_other : (b : Bool) (w n m : ℕ) → n < 64 → m < 64 → m ≢ n → bit (written b w n) m ≡ bit w m
written_other true w n m h k ne = omega (arith, bit-or w (2 ^ n) m, bit-pow_ne n m ne)
written_other false w n m h k ne = omega (
  arith,
  bit-and w (2 ^ 64 - 1 - 2 ^ n) m,
  bit-not 64 (2 ^ n) m (grows n 64 h) k,
  bit-pow_ne n m ne,
  bit-lt w m,
)

module _ {T : Type 0} (v : FlatVector T) where
  pub is_null-word :
      (i w : ℕ)
      → get_elem? v.null_mask (i / 64) ≡ some w
      → is_null i v ≡ done (bit w (i % 64) == 1) v
  unfolding is_null
  is_null-word i w e =
      rw (e, mask_word, bit_and-pow w (i % 64))
        (ap (λ x. done x v)
          (digit_test (bit w (i % 64)) (2 ^ (i % 64)) (bit-lt w (i % 64)) (positive (i % 64))))

  pub is_null-none : (i : ℕ) → mask_bits v ≤ i → is_null i v ≡ fault
  unfolding is_null
  is_null-none i h = rw (word_out v.null_mask (i / 64) (omega (arith, h)), mask_word) refl

  set_null-word :
      (i w : ℕ) (b : Bool)
      → get_elem? v.null_mask (i / 64) ≡ some w
      → set_null i b v
        ≡ done tt (record v { null_mask = set v.null_mask (i / 64) (written b w (i % 64)) })
  unfolding set_null
  set_null-word i w b e = rw (e, mask_word) refl

  pub set_null-none : (i : ℕ) (b : Bool) → mask_bits v ≤ i → set_null i b v ≡ fault
  unfolding set_null
  set_null-none i b h = rw (word_out v.null_mask (i / 64) (omega (arith, h)), mask_word) refl

-- Word by word, the mask that was written.
module _ {T : Type 0} (v : FlatVector T) (nulls : ℕ → Bool) (h : Masks v nulls) (i : ℕ) (b : Bool)
    (inside : i < mask_bits v) where
  word : ℕ
  word = (word_in v.null_mask (i / 64) (omega (arith, inside))).0

  there : get_elem? v.null_mask (i / 64) ≡ some word
  unfolding word
  there = (word_in v.null_mask (i / 64) (omega (arith, inside))).1

  abbrev after : FlatVector T
  after = record v { null_mask = set v.null_mask (i / 64) (written b word (i % 64)) }

  as_before :
      (j w : ℕ)
      → j < mask_bits v
      → get_elem? v.null_mask (j / 64) ≡ some w
      → (bit w (j % 64) == 1) ≡ nulls j
  as_before j w in_range e = ap answer (sym (is_null-word v j w e) ∙ h.inside j in_range)
    where
      answer : Outcome (FlatVector T) Bool → Bool
      answer (done x s) = x
      answer (thrown e s) = false
      answer fault = false

  here : get_elem? after.null_mask (i / 64) ≡ some (written b word (i % 64))
  here = get_elem?-set_self v.null_mask (i / 64) (written b word (i % 64)) (omega (arith, inside))

  at_index : is_null i after ≡ done b after
  at_index =
      is_null-word after i (written b word (i % 64)) here
      ∙ ap (λ x. done x after) (written_self b word (i % 64) (omega arith))

  same_word :
      (j : ℕ) → j < mask_bits v → j / 64 ≡ i / 64 → j ≢ i → is_null j after ≡ done (nulls j) after
  same_word j in_range same ne =
      is_null-word after j (written b word (i % 64)) (ap (get_elem? after.null_mask) same ∙ here)
      ∙ ap (λ x. done x after)
          (ap (λ (k : ℕ). k == 1)
              (written_other b word (i % 64) (j % 64) (omega arith) (omega arith)
                (λ e. ne (omega (arith, e, same))))
            ∙ as_before j word in_range (ap (get_elem? v.null_mask) same ∙ there))

  other_word : (j : ℕ) → j < mask_bits v → j / 64 ≢ i / 64 → is_null j after ≡ done (nulls j) after
  other_word j in_range other =
      let (w, e) = word_in v.null_mask (j / 64) (omega (arith, in_range)) in
      is_null-word after j w (
        get_elem?-set_ne v.null_mask (i / 64) (j / 64) (written b word (i % 64))
          (λ same. other (sym same))
        ∙ e)
      ∙ ap (λ x. done x after) (as_before j w in_range e)

  after-inside : (j : ℕ) → j < mask_bits v → is_null j after ≡ done (changed nulls i b j) after
  after-inside j in_range = elim (ℕ_discrete j i) [
    | yes e ↦ rw (e, eq→== i i refl) at_index
    | no ne ↦ rw (ne→== j i ne) (elim (ℕ_discrete (j / 64) (i / 64)) [
      | yes same ↦ same_word j in_range same ne
      | no other ↦ other_word j in_range other
    ])
  ]

  after-Masks : Masks after (changed nulls i b)
  after-Masks = record {
    inside = λ j in_range.
        after-inside j
          (omega (arith, in_range, length-set v.null_mask (i / 64) (written b word (i % 64))));
    outside = λ j out. is_null-none after j out;
  }

  set_null-after : set_null i b v ≡ done tt after
  set_null-after = set_null-word v i word b there

  -- One call changes one Boolean.
  pub set_null-Masks :
      (t : FlatVector T) × (set_null i b v ≡ done tt t)
      × Masks t (changed nulls i b)
      × (mask_bits t ≡ mask_bits v)
  set_null-Masks = (
    after,
    set_null-after,
    after-Masks,
    ap (λ (k : ℕ). 64 * k) (length-set v.null_mask (i / 64) (written b word (i % 64))),
  )
