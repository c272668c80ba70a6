-- ===== src/Tests/Heap.antt =====
-- An arena over memory that is given out from the bottom up and taken back.
use stingdb.Base.{
  ℕ, ◌+◌, ◌*◌, ◌/◌, ◌%◌, ◌^◌, ◌<◌, ◌≡◌, refl, subst, Bool, true, false, List, [], ◌∷◌, Option, none,
  some, ltb, leb, ◌&&◌, if◌then◌else◌, arith, Bool-cases, some_injective, inl, inr, ltb→lt,
}
use stingdb.Base.Effect.{Ensures, bind, out_of_memory}
use stingdb.Common.ArenaAllocator.{create}
use stingdb.Common.ArenaAllocator.Apart.{Provides, Within, AreApart, ArePlaced}
use stingdb.Common.ArenaAllocator.Blocks.{Releases}
use stingdb.Common.ArenaAllocator.Reused.{
  Command, allocating, resetting, run_commands, run_commands-apart,
}

-- `next` is the number of the next free piece of 16 bytes; memory that was taken back is not given again.
record Heap : Type 0 where
  next : ℕ
  freed : ℕ → Bool

abbrev inside : ℕ → ℕ → ℕ → Bool
inside c n a = leb c a && ltb a (c + n)

abbrev given : ℕ → Heap → ℕ × Heap
given n h = (
  16 * h.next,
  record {
    next = h.next + (n + 15) / 16;
    freed = λ a. if inside (16 * h.next) n a then false else h.freed a;
  },
)

abbrev new_piece : ℕ → Heap → Option (ℕ × Heap)
new_piece n h = if ltb (16 * h.next + n) (2 ^ 63) then some (given n h) else none

-- `delete` of a block of 128 bytes.
abbrev free_piece : ℕ → Heap → Heap
free_piece c h = record h { freed = λ a. if inside c 128 a then true else h.freed a }

abbrev IsUsed : Heap → ℕ → Type 0
IsUsed h a = (a < 16 * h.next) × (h.freed a ≡ false)

new_piece-some :
    (n : ℕ) (h : Heap) (c : ℕ) (h' : Heap)
    → new_piece n h ≡ some (c, h')
    → (P : ℕ × Heap → Type 0) → (16 * h.next + n < 2 ^ 63 → P (given n h))
    → P (c, h')
new_piece-some n h c h' e P p = elim (Bool-cases (ltb (16 * h.next + n) (2 ^ 63))) [
  | inl room ↦
      subst P (some_injective (given n h) (c, h') (rw room at e))
        (p (ltb→lt (16 * h.next + n) (2 ^ 63) room))
  | inr full ↦ absurd (nothing (rw full at e))
]
  where
    nothing : ◌≡◌ {A = Option (ℕ × Heap)} none (some (c, h')) → ⊥
    nothing q = cc

new_piece-Provides : Provides new_piece
new_piece-Provides = record {
  IsUsed = IsUsed;
  aligned = λ n h c h' e. new_piece-some n h c h' e (λ p. p.0 % 16 ≡ 0) (λ r. omega arith);
  fits = λ n h c h' e. new_piece-some n h c h' e (λ p. p.0 + n < 2 ^ 64) (λ r. omega arith);
  fresh = λ n h c h' e a w used.
      new_piece-some n h c h' e (λ p. Within p.0 n a → ⊥) (λ r v. omega (arith, v, used.0)) w;
  taken = λ n h c h' e a w.
      new_piece-some n h c h' e (λ p. Within p.0 n a → IsUsed p.1 a)
        (λ r v. (omega (arith, v), ground (arith, v))) w;
  kept = λ n h c h' e a used.
      new_piece-some n h c h' e (λ p. IsUsed p.1 a)
        (λ r. (omega (arith, used.0), ground (arith, used.1)));
}

free_piece-Releases : Releases new_piece new_piece-Provides free_piece 128
unfolding new_piece-Provides
free_piece-Releases c h a used off = (used.0, ground (arith, used.1, off))

abbrev commands : List Command
commands =
    allocating 24 8
    ∷ allocating 100 16
    ∷ allocating 50 4
    ∷ resetting
    ∷ allocating 100 16
    ∷ allocating 3 1
    ∷ allocating 60 2
    ∷ []

abbrev nothing_used : Heap
nothing_used = record { next = 0; freed = λ a. false }

run_commands-apart_example :
    Ensures
      (bind
        (create new_piece 128 nothing_used)
        (λ _. run_commands new_piece free_piece commands []))
      (λ rs t.
        AreApart new_piece new_piece-Provides rs × ArePlaced new_piece new_piece-Provides t.heap rs)
      (λ e t. e ≡ out_of_memory)
run_commands-apart_example =
    run_commands-apart new_piece new_piece-Provides free_piece 128 free_piece-Releases (omega arith)
      nothing_used commands
      (
        omega arith,
        λ e. omega (arith, e),
        refl,
        (
          omega arith,
          λ e. omega (arith, e),
          refl,
          (
            omega arith,
            λ e. omega (arith, e),
            refl,
            (
              omega arith,
              λ e. omega (arith, e),
              refl,
              (
                omega arith,
                λ e. omega (arith, e),
                refl,
                (omega arith, λ e. omega (arith, e), refl, tt),
              ),
            ),
          ),
        ),
      )
