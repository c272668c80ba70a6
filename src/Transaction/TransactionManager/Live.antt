-- ===== src/Transaction/TransactionManager/Live.antt =====
-- The transactions that hold an epoch.
use native.Mathlib.Decide.{ℕ_discrete}
use stingdb.Base.{
  ℕ, ◌+◌, ◌%◌, ◌≡◌, refl, Bool, true, false, List, [], ◌∷◌, ◌++◌, none, some, if◌then◌else◌, ◌==◌,
  arith, length, count, some_injective,
}
use stingdb.Base.Table.{find, insert}
use mathlib.Core.Logic.{if_pos, if_neg}
use stingdb.Transaction.EpochManager.Tracks.{tally}
use stingdb.Transaction.TransactionManager.{
  Transaction, TransactionState, active, committed, pre_abort, aborted,
}

abbrev pub is_active : TransactionState → Bool
is_active active = true
is_active committed = false
is_active pre_abort = false
is_active aborted = false

-- The epoch that a transaction holds while it is active.
abbrev pub held : Transaction → List ℕ
held t = if is_active t.state then t.read_epoch ∷ [] else []

-- The epochs held by the transactions of a map.
unfoldable pub live : List (ℕ × Transaction) → List ℕ
live [] = []
live ((id, t) ∷ txns) = held t ++ live txns

-- A sum over the epochs: `tally`, `count` and `length` are such sums.
unfoldable pub total : (ℕ → ℕ) → List ℕ → ℕ
total w [] = 0
total w (e ∷ es) = w e + total w es

module _ (w : ℕ → ℕ) where
  total-append : (xs ys : List ℕ) → total w (xs ++ ys) ≡ total w xs + total w ys
  unfolding total
  total-append [] ys = omega arith
  total-append (x ∷ xs) ys = omega (arith, total-append xs ys)

  -- A new transaction adds its epoch.
  pub total-insert_new :
      (id : ℕ) (t : Transaction) (txns : List (ℕ × Transaction))
      → find ℕ_discrete id txns ≡ none
      → total w (live (insert ℕ_discrete id t txns)) ≡ total w (held t) + total w (live txns)
  unfolding live insert find
  total-insert_new id t [] h = total-append (held t) []
  total-insert_new id t ((j, u) ∷ txns) h = elim (ℕ_discrete j id) [
    | yes same ↦ absurd (ground (arith, h))
    | no ne ↦
        let rest = total-insert_new id t txns (ground (arith, h)) in
        rw
          (
            if_neg (ℕ_discrete j id) ne,
            total-append (held u) (live (insert ℕ_discrete id t txns)),
            total-append (held u) (live txns),
          )
          (omega (arith, rest))
  ]

  -- One that is replaced gives its epoch away for that of its successor.
  pub total-insert_known :
      (id : ℕ) (t u : Transaction) (txns : List (ℕ × Transaction))
      → find ℕ_discrete id txns ≡ some u
      → total w (live (insert ℕ_discrete id t txns)) + total w (held u)
        ≡ total w (held t) + total w (live txns)
  unfolding live insert find
  total-insert_known id t u [] h = absurd (cc)
  total-insert_known id t u ((j, v) ∷ txns) h = elim (ℕ_discrete j id) [
    | yes same ↦
        let e : v ≡ u = some_injective v u (ground (arith, h)) in
        rw
          (
            if_pos (ℕ_discrete j id) same,
            total-append (held t) (live txns),
            total-append (held v) (live txns),
            e,
          )
          (omega arith)
    | no ne ↦
        let rest = total-insert_known id t u txns (ground (arith, h)) in
        rw
          (
            if_neg (ℕ_discrete j id) ne,
            total-append (held v) (live (insert ℕ_discrete id t txns)),
            total-append (held v) (live txns),
          )
          (omega (arith, rest))
  ]

pub tally-total :
    (k : ℕ) (es : List ℕ) → tally k es ≡ total (λ e. if e % 1024 == k then 1 else 0) es
unfolding tally total
tally-total k [] = refl
tally-total k (e ∷ es) = omega (arith, tally-total k es)

pub count-total : (x : ℕ) (es : List ℕ) → count x es ≡ total (λ e. if e == x then 1 else 0) es
unfolding total
count-total x [] = refl
count-total x (e ∷ es) = omega (arith, count-total x es)

pub length-total : (es : List ℕ) → length es ≡ total (λ e. 1) es
unfolding total
length-total [] = refl
length-total (e ∷ es) = omega (arith, length-total es)
