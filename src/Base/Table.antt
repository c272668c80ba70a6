-- ===== src/Base/Table.antt =====
-- Hash maps as association lists: `find`, `m[k] = v` and `erase`.
use mathlib.Core.Path.{◌≡◌, refl, sym, ◌∙◌, subst}
use mathlib.Core.Logic.{◌≢◌, ite, if_pos, if_neg}
use mathlib.Core.List.{List, [], ◌∷◌}
use mathlib.Core.Option.{Option, none, some}
use native.Mathlib.Omega.{arith}

module _ {ℓ} {K V : Type ℓ} (dec : Discrete K) where
  unfoldable pub find : K → List (K × V) → Option V
  find k [] = none
  find k ((j, v) ∷ m) = ite (dec j k) (some v) (find k m)

  unfoldable pub insert : K → V → List (K × V) → List (K × V)
  insert k v [] = (k, v) ∷ []
  insert k v ((j, w) ∷ m) = ite (dec j k) ((k, v) ∷ m) ((j, w) ∷ insert k v m)

  unfoldable pub erase : K → List (K × V) → List (K × V)
  erase k [] = []
  erase k ((j, w) ∷ m) = ite (dec j k) (erase k m) ((j, w) ∷ erase k m)

  pub find-insert_self : (k : K) (v : V) (m : List (K × V)) → find k (insert k v m) ≡ some v
  unfolding find insert
  find-insert_self k v [] = if_pos (dec k k) refl _ _
  find-insert_self k v ((j, w) ∷ m) = elim (dec j k) [
    | yes e ↦ rw (if_pos _ e) (if_pos (dec k k) refl _ _)
    | no ne ↦ rw (if_neg _ ne, if_neg _ ne) (find-insert_self k v m)
  ]

  pub find-insert_ne :
      (k q : K) (v : V) (m : List (K × V)) → q ≢ k → find q (insert k v m) ≡ find q m
  unfolding find insert
  find-insert_ne k q v [] ne = if_neg (dec k q) (λ e. ne (sym e)) _ _
  find-insert_ne k q v ((j, w) ∷ m) ne = ground (arith, find-insert_ne k q v m ne)

  pub find-erase_self : (k : K) (m : List (K × V)) → find k (erase k m) ≡ none
  unfolding find erase
  find-erase_self k [] = refl
  find-erase_self k ((j, w) ∷ m) = ground (arith, find-erase_self k m)

  pub find-erase_ne : (k q : K) (m : List (K × V)) → q ≢ k → find q (erase k m) ≡ find q m
  unfolding find erase
  find-erase_ne k q [] ne = refl
  find-erase_ne k q ((j, w) ∷ m) ne = ground (arith, find-erase_ne k q m ne)

  -- Each key has one entry.
  abbrev pub HasOnce : List (K × V) → Type ℓ
  HasOnce [] = Unit
  HasOnce ((k, v) ∷ m) = (find k m ≡ none) × HasOnce m

  pub insert-HasOnce : (k : K) (v : V) (m : List (K × V)) → HasOnce m → HasOnce (insert k v m)
  unfolding insert find
  insert-HasOnce k v [] h = (refl, tt)
  insert-HasOnce k v ((j, w) ∷ m) (alone, h) = elim (dec j k) [
    | yes e ↦ rw (if_pos (dec j k) e) (subst (λ i. find i m ≡ none) e alone, h)
    | no ne ↦ rw (if_neg (dec j k) ne) (find-insert_ne k j v m ne ∙ alone, insert-HasOnce k v m h)
  ]

  pub erase-HasOnce : (k : K) (m : List (K × V)) → HasOnce m → HasOnce (erase k m)
  unfolding erase find
  erase-HasOnce k [] h = tt
  erase-HasOnce k ((j, w) ∷ m) (alone, h) = elim (dec j k) [
    | yes e ↦ rw (if_pos (dec j k) e) (erase-HasOnce k m h)
    | no ne ↦ rw (if_neg (dec j k) ne) (find-erase_ne k j m ne ∙ alone, erase-HasOnce k m h)
  ]

  -- Each of the entries is the one that is found.
  abbrev pub AreFound : List (K × V) → List (K × V) → Type ℓ
  AreFound m [] = Unit
  AreFound m ((k, v) ∷ es) = (find k m ≡ some v) × AreFound m es

  AreFound-cons :
      (k : K) (v : V) (m es : List (K × V))
      → find k m ≡ none
      → AreFound m es
      → AreFound ((k, v) ∷ m) es
  unfolding find
  AreFound-cons k v m [] alone h = tt
  AreFound-cons k v m ((j, w) ∷ es) alone (found, h) = (
    if_neg (dec k j) (λ e. clash (subst (λ i. find i m ≡ none) e alone) found) _ _ ∙ found,
    AreFound-cons k v m es alone h,
  )
    where
      clash : find j m ≡ none → find j m ≡ some w → ⊥
      clash a b = cc

  pub HasOnce-AreFound : (m : List (K × V)) → HasOnce m → AreFound m m
  unfolding find
  HasOnce-AreFound [] h = tt
  HasOnce-AreFound ((k, v) ∷ m) (alone, h) =
      (if_pos (dec k k) refl _ _, AreFound-cons k v m m alone (HasOnce-AreFound m h))
