-- ===== src/Planner/Rule/Laws.antt =====
-- What the rules make of a join.
use stingdb.Base.{ℕ, ◌≡◌, refl, true, false, [], ◌∷◌}
use stingdb.Planner.Memo.{logical_join, physical_hash_join, GroupExpression}
use stingdb.Planner.Rule.{create_expression, match_join, commute_join, to_hash_join, swapped}

-- Swapping a join's sides twice gives the join back, as it was made; and the physical join keeps the
-- sides, and is matched by neither rule again.
pub commute_join-twice :
    (hash_int hash_id : ℕ → ℕ) (a b : ℕ)
    → (expr : GroupExpression) → expr.children ≡ a ∷ b ∷ []
    → (other : GroupExpression) × (commute_join hash_int hash_id expr ≡ other ∷ [])
      × (match_join hash_int hash_id other ≡ true)
      × (commute_join hash_int hash_id other
          ≡ create_expression hash_int hash_id logical_join (a ∷ b ∷ []) ∷ [])
      × (to_hash_join hash_int hash_id expr
          ≡ create_expression hash_int hash_id physical_hash_join (a ∷ b ∷ []) ∷ [])
      × (match_join hash_int hash_id
            (create_expression hash_int hash_id physical_hash_join (a ∷ b ∷ []))
          ≡ false)
unfolding commute_join swapped create_expression match_join to_hash_join
commute_join-twice hash_int hash_id a b expr e = (
  create_expression hash_int hash_id logical_join (b ∷ a ∷ []),
  rw e refl,
  refl,
  refl,
  rw e refl,
  refl,
)
