-- ===== src/Planner/Optimizer.antt =====
-- src/sql/planner/optimizer.h, with the interface of a rule of src/sql/planner/rule.h. The search over
-- the memo is commented out in the source.
use stingdb.Base.{ℕ, Bool, List, [], ◌∷◌, ◌++◌}
use stingdb.Planner.Memo.{GroupExpression}
use stingdb.Planner.Rule.{match_join, commute_join, to_hash_join}

pub record Rule : Type 0 where
  pub match : GroupExpression → Bool
  pub transform : GroupExpression → List GroupExpression

pub record Optimizer : Type 0 where
  pub rules : List Rule

unfoldable pub add_rule : Rule → Optimizer → Optimizer
add_rule rule o = record { rules = o.rules ++ rule ∷ [] }

-- `hash_int` and `hash_id` are `std::hash<int>` and `std::hash<GroupId>`.
module _ (hash_int hash_id : ℕ → ℕ) where
  abbrev pub join_commutativity_rule : Rule
  join_commutativity_rule = record {
    match = match_join hash_int hash_id;
    transform = commute_join hash_int hash_id;
  }

  abbrev pub hash_join_rule : Rule
  hash_join_rule = record {
    match = match_join hash_int hash_id;
    transform = to_hash_join hash_int hash_id;
  }

  -- The constructor.
  unfoldable pub create_optimizer : Optimizer
  unfolding add_rule
  create_optimizer =
      add_rule hash_join_rule (add_rule join_commutativity_rule (record { rules = [] }))
