-- ===== src/Tests/Memory.antt =====
-- The null mask of a column, and an arena over memory that is given out from the bottom up.
use stingdb.Base.{
  ℕ, ◌+◌, ◌*◌, ◌/◌, ◌^◌, ◌<◌, ◌≤◌, ◌≡◌, sym, ap, Bool, true, false, List, [], ◌∷◌, Option, none,
  some, ltb, if◌then◌else◌, arith, Bool-cases, some_injective, inl, inr, ltb→lt,
}
use stingdb.Base.Effect.{done}
use stingdb.Catalog.Schema.{integer}
use stingdb.Execution.Vector.{FlatVector, create_vector}
use stingdb.Execution.Vector.NullMask.{Masks, mask_bits}
use stingdb.Execution.Vector.Nulls.{set_nulls, null_calls, create_vector-Masks}
use stingdb.Common.ArenaAllocator.Apart.{Provides}

abbrev null_updates : List (ℕ × Bool)
null_updates = (3, true) ∷ (99, true) ∷ (3, false) ∷ []

create_vector-Masks_example :
    (t : FlatVector ℕ) × (set_nulls null_updates (create_vector integer 100) ≡ done tt t)
    × Masks t (null_calls null_updates (λ _. false))
    × (100 ≤ mask_bits t)
create_vector-Masks_example =
    create_vector-Masks integer 100 null_updates (omega arith, (omega arith, (omega arith, tt)))

-- `next` is the number of the next free block of 16 bytes.
abbrev bump : ℕ → ℕ → Option (ℕ × ℕ)
bump n next = if ltb (16 * next + n) (2 ^ 63) then some (16 * next, next + (n + 15) / 16) else none

bump-some :
    (n h c h' : ℕ)
    → bump n h ≡ some (c, h')
    → (16 * h + n < 2 ^ 63) × (c ≡ 16 * h) × (h' ≡ h + (n + 15) / 16)
bump-some n h c h' e = elim (Bool-cases (ltb (16 * h + n) (2 ^ 63))) [
  | inl room ↦ (
    ltb→lt (16 * h + n) (2 ^ 63) room,
    sym (ap (λ p. p.0) (given room)),
    sym (ap (λ p. p.1) (given room)),
  )
  | inr full ↦ absurd (nothing (rw full at e))
]
  where
    given : ltb (16 * h + n) (2 ^ 63) ≡ true → ◌≡◌ {A = ℕ × ℕ} (16 * h, h + (n + 15) / 16) (c, h')
    given room = some_injective {A = ℕ × ℕ} (16 * h, h + (n + 15) / 16) (c, h') (rw room at e)

    nothing : ◌≡◌ {A = Option (ℕ × ℕ)} none (some (c, h')) → ⊥
    nothing q = cc

bump-Provides : Provides bump
bump-Provides = record {
  IsUsed = λ next a. a < 16 * next;
  aligned = λ n h c h' e. omega (arith, bump-some n h c h' e);
  fits = λ n h c h' e. omega (arith, bump-some n h c h' e);
  fresh = λ n h c h' e a w used. omega (arith, w, used, bump-some n h c h' e);
  taken = λ n h c h' e a w. omega (arith, w, bump-some n h c h' e);
  kept = λ n h c h' e a used. omega (arith, used, bump-some n h c h' e);
}

abbrev calls : List (ℕ × ℕ)
calls = (24, 8) ∷ (3, 1) ∷ (100, 16) ∷ (50, 4) ∷ []
