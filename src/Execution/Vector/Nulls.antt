-- ===== src/Execution/Vector/Nulls.antt =====
-- Any sequence of calls on the null mask of a new vector.
use stingdb.Base.{
  ℕ, zero, suc, ◌+◌, ◌/◌, ◌%◌, ◌<◌, ◌≤◌, ◌≡◌, refl, ◌∙◌, ap, Bool, false, List, [], ◌∷◌, some,
  get_elem?, replicate, length-replicate, arith,
}
use stingdb.Base.Bits.{bit-zero}
use stingdb.Base.Effect.{Eff, done, bind}
use stingdb.Catalog.Schema.{TypeId}
use stingdb.Execution.Vector.{FlatVector, create_vector, set_null}
use stingdb.Execution.Vector.NullMask.{
  Masks, mask_bits, changed, set_null-Masks, is_null-word, is_null-none,
}

get_elem?-replicate : (n i x : ℕ) → i < n → get_elem? (replicate n x) i ≡ some x
get_elem?-replicate zero i x h = absurd (omega (arith, h))
get_elem?-replicate (suc n) zero x h = refl
get_elem?-replicate (suc n) (suc i) x h = get_elem?-replicate n i x (omega (arith, h))

-- The calls `SetNull(index, is_null)`, and what they make of the Booleans.
unfoldable pub set_nulls : {T : Type 0} → List (ℕ × Bool) → Eff (FlatVector T) (Unit {0})
set_nulls [] v = done tt v
set_nulls ((i, b) ∷ calls) v = bind (set_null i b v) (λ _. set_nulls calls)

unfoldable pub null_calls : List (ℕ × Bool) → (ℕ → Bool) → ℕ → Bool
null_calls [] nulls = nulls
null_calls ((i, b) ∷ calls) nulls = null_calls calls (changed nulls i b)

-- Each index is below the bound.
abbrev pub AreBelow : ℕ → List (ℕ × Bool) → Type 0
AreBelow n [] = Unit {0}
AreBelow n ((i, b) ∷ calls) = (i < n) × AreBelow n calls

module _ {T : Type 0} where
  create-Masks :
      (type : TypeId) (capacity : ℕ) → Masks (create_vector {T = T} type capacity) (λ _. false)
  unfolding create_vector
  create-Masks type capacity = record {
    inside = λ i in_range.
        is_null-word new i 0 (
          get_elem?-replicate ((capacity + 63) / 64) (i / 64) 0
            (omega (arith, in_range, length-replicate {A = ℕ} ((capacity + 63) / 64) 0)))
        ∙ ap (λ x. done x new) (rw (bit-zero (i % 64)) refl);
    outside = λ j out. is_null-none new j out;
  }
    where
      new : FlatVector T
      new = create_vector type capacity

  set_nulls-Masks :
      (calls : List (ℕ × Bool)) (v : FlatVector T) (nulls : ℕ → Bool) (n : ℕ)
      → Masks v nulls
      → n ≤ mask_bits v
      → AreBelow n calls
      → (t : FlatVector T) × (set_nulls calls v ≡ done tt t)
        × Masks t (null_calls calls nulls)
        × (n ≤ mask_bits t)
  unfolding set_nulls null_calls
  set_nulls-Masks [] v nulls n h bits below = (v, refl, h, bits)
  set_nulls-Masks ((i, b) ∷ calls) v nulls n h bits (first, below) =
      let (t, e1, h1, same) = set_null-Masks v nulls h i b (omega (arith, first, bits)) in
      let (u, e2, h2, bits2) =
        set_nulls-Masks calls t (changed nulls i b) n h1 (omega (arith, same, bits)) below in
      (u, rw (e1, e2) refl, h2, bits2)

  -- A new vector has bits for its capacity, and none is set. After any sequence of `SetNull` calls on
  -- values below the capacity, `IsNull` says of each value what the last call on it said, or false where
  -- there was none; an index beyond the words of the mask is outside it.
  pub create_vector-Masks :
      (type : TypeId) (capacity : ℕ) (calls : List (ℕ × Bool))
      → AreBelow capacity calls
      → (t : FlatVector T) × (set_nulls calls (create_vector {T = T} type capacity) ≡ done tt t)
        × Masks t (null_calls calls (λ _. false))
        × (capacity ≤ mask_bits t)
  unfolding create_vector
  create_vector-Masks type capacity calls below =
      set_nulls-Masks calls (create_vector type capacity) (λ _. false) capacity
        (create-Masks type capacity)
        (omega (arith, length-replicate {A = ℕ} ((capacity + 63) / 64) 0)) below
