-- ===== src/Common/ArenaAllocator/Apart.antt =====
-- The places that an arena gives, and the bytes that they share.
use native.Mathlib.Nat.{
  mod-eq_of_lt, add-mod-mod, mod-lt, mod-add-div, add-mod_right, mul-mod_right,
}
use stingdb.Base.{
  ℕ, ◌+◌, ◌*◌, ◌/◌, ◌-◌, ◌%◌, ◌^◌, ◌≤◌, ◌<◌, ◌≡◌, ◌≢◌, refl, ◌∙◌, ap, List, [], ◌∷◌, ◌++◌, Option,
  some, arith,
}
use stingdb.Common.ArenaAllocator.{ArenaAllocator, back, padding_at}

-- The addresses of `size` bytes at `at`.
abbrev pub Within : ℕ → ℕ → ℕ → Type 0
Within at size a = (at ≤ a) × (a < at + size)

-- What is relied on of `new`: a block is aligned for every type, lies in the address space, and no byte
-- of it is in use; it is then in use, and nothing else ceases to be.
pub record Provides {H : Type 0} (new_chunk : ℕ → H → Option (ℕ × H)) : Type 1 where
  pub IsUsed : H → ℕ → Type 0
  pub aligned : (n : ℕ) (h : H) (c : ℕ) (h' : H) → new_chunk n h ≡ some (c, h') → c % 16 ≡ 0
  pub fits : (n : ℕ) (h : H) (c : ℕ) (h' : H) → new_chunk n h ≡ some (c, h') → c + n < 2 ^ 64
  pub fresh :
      (n : ℕ) (h : H) (c : ℕ) (h' : H)
      → new_chunk n h ≡ some (c, h')
      → (a : ℕ) → Within c n a
      → IsUsed h a
      → ⊥
  pub taken :
      (n : ℕ) (h : H) (c : ℕ) (h' : H)
      → new_chunk n h ≡ some (c, h')
      → (a : ℕ) → Within c n a
      → IsUsed h' a
  pub kept :
      (n : ℕ) (h : H) (c : ℕ) (h' : H)
      → new_chunk n h ≡ some (c, h')
      → (a : ℕ) → IsUsed h a
      → IsUsed h' a

pub back-append : (cs : List ℕ) (c : ℕ) → back (cs ++ c ∷ []) ≡ some c
unfolding back
back-append [] c = refl
back-append (d ∷ []) c = refl
back-append (d ∷ e ∷ cs) c = back-append (e ∷ cs) c

-- The padding aligns, and needs less than the alignment.
pub padding_at-aligns :
    (base offset align : ℕ)
    → align ≢ 0
    → base + offset < 2 ^ 64
    → (base + offset + padding_at base offset align) % align ≡ 0
padding_at-aligns base offset align nonzero small =
    ap (λ (k : ℕ). (base + offset + (align - k % align) % align) % align) (mod-eq_of_lt small)
    ∙ add-mod-mod (base + offset) (align - (base + offset) % align) align
    ∙ ap (λ (k : ℕ). k % align)
        (omega (
          arith,
          mod-lt (base + offset) {m = align} (grind (arith, nonzero)),
          mod-add-div (base + offset) align,
        ))
    ∙ add-mod_right (align * ((base + offset) / align)) align
    ∙ mul-mod_right align ((base + offset) / align)

-- What an arena gave: `size` bytes at `start`, for an alignment.
pub record Region : Type 0 where
  pub start : ℕ
  pub size : ℕ
  pub align : ℕ

module _ {H : Type 0} (new_chunk : ℕ → H → Option (ℕ × H)) (provides : Provides new_chunk) where
  -- Every region is aligned and in use, none has a byte among `size` at `start`, and no two share one.
  abbrev pub ArePlaced : H → List Region → Type 0
  ArePlaced h [] = Unit {0}
  ArePlaced h (r ∷ rs) =
      (r.start % r.align ≡ 0)
      × ((a : ℕ) → Within r.start r.size a → provides.IsUsed h a)
      × ArePlaced h rs

  abbrev pub AreOff : ℕ → ℕ → List Region → Type 0
  AreOff start size [] = Unit {0}
  AreOff start size (r ∷ rs) =
      ((a : ℕ) → Within start size a → Within r.start r.size a → ⊥) × AreOff start size rs

  abbrev pub AreApart : List Region → Type 0
  AreApart [] = Unit {0}
  AreApart (r ∷ rs) = AreOff r.start r.size rs × AreApart rs

  pub ArePlaced-kept :
      (h h' : H)
      → ((a : ℕ) → provides.IsUsed h a → provides.IsUsed h' a)
      → (rs : List Region) → ArePlaced h rs
      → ArePlaced h' rs
  ArePlaced-kept h h' kept [] placed = tt
  ArePlaced-kept h h' kept (r ∷ rs) (aligned, used, placed) =
      (aligned, λ a w. kept a (used a w), ArePlaced-kept h h' kept rs placed)

  pub AreOff-part :
      (p k q m : ℕ) → p ≤ q → q + m ≤ p + k → (rs : List Region) → AreOff p k rs → AreOff q m rs
  AreOff-part p k q m low high [] off = tt
  AreOff-part p k q m low high (r ∷ rs) (first, off) = (
    λ a w. first a (omega (arith, low, w), omega (arith, high, w)),
    AreOff-part p k q m low high rs off,
  )

  pub AreOff-fresh :
      (p k : ℕ) (h : H)
      → ((a : ℕ) → Within p k a → provides.IsUsed h a → ⊥)
      → (rs : List Region) → ArePlaced h rs
      → AreOff p k rs
  AreOff-fresh p k h fresh [] placed = tt
  AreOff-fresh p k h fresh (r ∷ rs) (_, used, placed) =
      (λ a w v. fresh a w (used a v), AreOff-fresh p k h fresh rs placed)

  -- The regions that were given are apart, and the rest of the last block is apart from them.
  pub record IsArena (s : ArenaAllocator H) (rs : List Region) : Type 0 where
    pub base : ℕ
    pub last : back s.chunks ≡ some base
    pub bounded : s.chunk_size < 2 ^ 62
    pub in_chunk : s.current_offset ≤ s.chunk_size
    pub fits : base + s.chunk_size < 2 ^ 64
    pub rest_used :
        (a : ℕ)
        → Within (base + s.current_offset) (s.chunk_size - s.current_offset) a
        → provides.IsUsed s.heap a
    pub rest_off : AreOff (base + s.current_offset) (s.chunk_size - s.current_offset) rs
    pub placed : ArePlaced s.heap rs
    pub apart : AreApart rs
