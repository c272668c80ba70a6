-- ===== src/Planner/Rule.antt =====
-- src/sql/planner/rule.h, the rules that src/sql/planner/optimizer.h registers.
pub mod Laws
use stingdb.Base.{ℕ, ◌+◌, Bool, true, false, List, [], ◌∷◌}
use stingdb.Planner.Memo.{
  OperatorType, logical_get, logical_filter, logical_join, logical_aggregation, physical_seq_scan,
  physical_index_scan, physical_hash_join, physical_nested_loop_join, GroupExpression, compute_hash,
}

-- `hash_int` and `hash_id` are `std::hash<int>` and `std::hash<GroupId>`.
module _ (hash_int hash_id : ℕ → ℕ) where
  -- The constructor of an expression, in src/sql/planner/memo.h.
  unfoldable pub create_expression : OperatorType → List ℕ → GroupExpression
  create_expression op_type children = record {
    op_type = op_type;
    children = children;
    hash = compute_hash hash_int hash_id op_type children;
    target_group_id = 0;
  }

  -- `Match`, the same of both rules.
  unfoldable pub match_join : GroupExpression → Bool
  match_join expr = elim expr.op_type [
    | logical_join ↦ true
    | logical_get ↦ false
    | logical_filter ↦ false
    | logical_aggregation ↦ false
    | physical_seq_scan ↦ false
    | physical_index_scan ↦ false
    | physical_hash_join ↦ false
    | physical_nested_loop_join ↦ false
  ]

  unfoldable pub swapped : List ℕ → List GroupExpression
  swapped [] = []
  swapped (a ∷ []) = []
  swapped (a ∷ b ∷ []) = create_expression logical_join (b ∷ a ∷ []) ∷ []
  swapped (a ∷ b ∷ c ∷ rest) = []

  -- `LogicalJoinCommutativityRule::Transform`
  unfoldable pub commute_join : GroupExpression → List GroupExpression
  commute_join expr = swapped expr.children

  -- `LogicalToPhysicalHashJoinRule::Transform`
  unfoldable pub to_hash_join : GroupExpression → List GroupExpression
  to_hash_join expr = create_expression physical_hash_join expr.children ∷ []
