-- ===== src/Catalog/Schema/Lookup.antt =====
-- Columns by name.
use stingdb.Base.{
  ℕ, zero, suc, ◌+◌, ◌<◌, ◌≡◌, ◌≢◌, refl, ap, ◌∙◌, List, [], ◌∷◌, Option, none, some, get_elem?,
  arith, some_injective, inl, inr, Option-cases, subst,
}
use stingdb.Base.Effect.{Ensures, column_not_found}
use stingdb.Catalog.Schema.{Column, Schema, Name, name_discrete, find_column, get_col_idx}

-- The first column with the name: `i` of them come before.
abbrev pub IsFirst : List Column → Name → ℕ → Type 0
IsFirst cols n i =
    ((c : Column) × (get_elem? cols i ≡ some c) × (c.name ≡ n))
    × ((j : ℕ) (d : Column) → j < i → get_elem? cols j ≡ some d → d.name ≢ n)

abbrev pub IsMissing : List Column → Name → Type 0
IsMissing cols n = (j : ℕ) (d : Column) → get_elem? cols j ≡ some d → d.name ≢ n

abbrev Finds : ℕ → List Column → Name → Option ℕ → Type 0
Finds from cols n none = IsMissing cols n
Finds from cols n (some i) = (k : ℕ) × (i ≡ from + k) × IsFirst cols n k

find_column-Finds :
    (from : ℕ) (cols : List Column) (n : Name) → Finds from cols n (find_column from cols n)
unfolding find_column
find_column-Finds from [] n = λ j d e. absurd (ground (arith, e))
find_column-Finds from (col ∷ cols) n =
    elim (name_discrete col.name n)
      as (λ (x : Dec (col.name ≡ n)).
        Finds from (col ∷ cols) n
          (elim x [ yes _ ↦ some from | no _ ↦ find_column (from + 1) cols n ])) [
            | yes same ↦ (0, omega arith, ((col, refl, same), λ j d lt e. absurd (omega arith)))
            | no ne ↦ later (find_column (from + 1) cols n) ne (find_column-Finds (from + 1) cols n)
          ]
  where
    passed :
        col.name ≢ n
        → (j : ℕ) (d : Column) → get_elem? (col ∷ cols) j ≡ some d
        → ((i : ℕ) → j ≡ suc i → get_elem? cols i ≡ some d → d.name ≢ n)
        → d.name ≢ n
    passed ne zero d e rest = λ z. ne (ap (λ (x : Column). x.name) (some_injective col d e) ∙ z)
    passed ne (suc j) d e rest = rest j refl e

    later : (r : Option ℕ) → col.name ≢ n → Finds (from + 1) cols n r → Finds from (col ∷ cols) n r
    later none ne f = λ j d e. passed ne j d e (λ i _ e'. f i d e')
    later (some i) ne (k, at, first) = (
      suc k,
      omega arith,
      (first.0, λ j d lt e. passed ne j d e (λ i same e'. first.1 i d (omega (arith, same)) e')),
    )

-- `GetColIdx` returns the index of the first column with the name, and throws if no column has it.
pub get_col_idx-IsFirst :
    (s : Schema) (n : Name)
    → Ensures
        (get_col_idx n s)
        (λ i t. (t ≡ s) × IsFirst s.columns n i)
        (λ e t. (e ≡ column_not_found) × (t ≡ s) × IsMissing s.columns n)
unfolding get_col_idx
get_col_idx-IsFirst s n = elim (Option-cases (find_column 0 s.columns n)) [
  | inl e ↦ rw (e, get_col_idx) (refl, refl, subst (Finds 0 s.columns n) e all)
  | inr (i, e) ↦
      let (k, at, first) = subst (Finds 0 s.columns n) e all in
      rw (e, get_col_idx) (refl, subst (IsFirst s.columns n) (omega (arith, at)) first)
]
  where
    all : Finds 0 s.columns n (find_column 0 s.columns n)
    all = find_column-Finds 0 s.columns n
