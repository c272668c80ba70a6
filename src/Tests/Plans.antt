-- ===== src/Tests/Plans.antt =====
-- A join in the memo.
use stingdb.Base.{ℕ, ◌+◌, ◌≡◌, refl, [], ◌∷◌, length, arith}
use stingdb.Base.Effect.{Ensures}
use stingdb.Planner.Memo.{logical_join, GroupExpression, create, insert_expression}
use stingdb.Planner.Memo.Inserted.{Holds, create-IsValid, insert_expression-Holds}

abbrev hash_of : ℕ → ℕ
hash_of n = n + 100

abbrev join : GroupExpression
join = record { op_type = logical_join; children = 4 ∷ 9 ∷ []; hash = 4; target_group_id = 0 }

small : length create.groups ≡ 0
unfolding create
small = refl

insert_expression-Holds_example :
    Ensures (insert_expression join 0 create) (Holds create create-IsValid join 0) (λ _ _. ⊥)
insert_expression-Holds_example =
    insert_expression-Holds create create-IsValid join 0 (omega (arith, small))
      (omega (arith, small))
