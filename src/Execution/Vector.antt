-- ===== src/Execution/Vector.antt =====
-- src/execution/vector.h: a column of values with a bit for each that may be null. The loads for the
-- vector unit, and the alignment of the values for them, are those of a library.
pub mod NullMask
pub mod Nulls
use Prim.Native.Nat.{bit_and, bit_or}
use stingdb.Base.{
  ℕ, zero, suc, ◌+◌, ◌-◌, ◌/◌, ◌%◌, ◌^◌, Bool, true, false, not, List, [], ◌∷◌, Option, none, some,
  ◌==◌, if◌then◌else◌, get_elem?, set, replicate, length,
}
use stingdb.Base.Effect.{Eff, Outcome, done, fault, pure, crash, bind, ◌>>=◌}
use stingdb.Catalog.Schema.{TypeId}

pub record FlatVector (T : Type 0) : Type 0 where
  pub type : TypeId
  pub size : ℕ
  pub values : List T
  pub null_mask : List ℕ

-- `std::vector::resize`: the new values are `zero_value`.
unfoldable pub resized : {T : Type 0} → T → ℕ → List T → List T
resized zero_value zero values = []
resized zero_value (suc n) [] = zero_value ∷ resized zero_value n []
resized zero_value (suc n) (v ∷ values) = v ∷ resized zero_value n values

module _ {T : Type 0} where
  -- The constructor, where `reserve` returns. It throws for a capacity that is so large that the count of
  -- the words would wrap.
  unfoldable pub create_vector : TypeId → ℕ → FlatVector T
  create_vector type capacity = record {
    type = type;
    size = 0;
    values = [];
    null_mask = replicate ((capacity + 63) / 64) 0;
  }

  unfoldable pub get_size : FlatVector T → ℕ
  get_size v = v.size

  unfoldable pub resize : T → ℕ → FlatVector T → FlatVector T
  unfolding resized
  resize zero_value new_size v = record v {
    size = new_size;
    values = resized zero_value new_size v.values;
  }

  -- The word of the mask; an index outside it is undefined.
  unfoldable pub mask_word : ℕ → Eff (FlatVector T) ℕ
  mask_word word_idx v = elim (get_elem? v.null_mask word_idx) [ none ↦ fault | some w ↦ done w v ]

  -- `1ULL << bit_idx` is `2 ^ bit_idx`, and `~` the complement in 64 bits.
  unfoldable pub set_null : ℕ → Bool → Eff (FlatVector T) (Unit {0})
  unfolding mask_word
  set_null index is_null v = bind (mask_word (index / 64) v) λ word v. done tt (record v {
    null_mask = set v.null_mask (index / 64) (
        if is_null
        then bit_or word (2 ^ (index % 64))
        else bit_and word (2 ^ 64 - 1 - 2 ^ (index % 64)));
  })

  unfoldable pub is_null : ℕ → Eff (FlatVector T) Bool
  unfolding mask_word
  is_null index v =
      bind (mask_word (index / 64) v) λ word v. done (not (bit_and word (2 ^ (index % 64)) == 0)) v
