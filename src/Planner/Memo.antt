-- ===== src/Planner/Memo.antt =====
-- src/sql/planner/memo.h. `std::hash` is a parameter, whose values are below 2 ^ 64. An expression is shared by pointer between a
-- group and the map; it is not changed after its insertion, so both hold it.
pub mod Inserted
use native.Mathlib.Decide.{ℕ_discrete}
use stingdb.Base.{
  ℕ, zero, suc, ◌+◌, ◌-◌, ◌*◌, ◌/◌, ◌%◌, ◌^◌, Bool, List, [], ◌∷◌, ◌++◌, Option, none, some, ltb,
  ◌==◌, if◌then◌else◌, length,
}
use stingdb.Base.Effect.{Eff, Outcome, done, fault}
use stingdb.Base.Table.{find, insert}

pub data OperatorType : Type 0 where
  logical_get logical_filter logical_join logical_aggregation : OperatorType
  physical_seq_scan physical_index_scan : OperatorType
  physical_hash_join physical_nested_loop_join : OperatorType

-- The cast to `int`.
unfoldable pub op_number : OperatorType → ℕ
op_number logical_get = 0
op_number logical_filter = 1
op_number logical_join = 2
op_number logical_aggregation = 3
op_number physical_seq_scan = 4
op_number physical_index_scan = 5
op_number physical_hash_join = 6
op_number physical_nested_loop_join = 7

-- `^` on the low `w` bits.
unfoldable pub xor : ℕ → ℕ → ℕ → ℕ
xor zero a b = 0
xor (suc w) a b = (a + b) % 2 + 2 * xor w (a / 2) (b / 2)

-- The loop over the children from the hash `h` on; `hash_id` is `std::hash<GroupId>`.
unfoldable pub mix_children : (ℕ → ℕ) → ℕ → List ℕ → ℕ
mix_children hash_id h [] = h
mix_children hash_id h (child ∷ children) =
    let mixed = (hash_id child + 0x9e37_79b9 + h * 2 ^ 6 % 2 ^ 64 + h / 2 ^ 2) % 2 ^ 64 in
    mix_children hash_id (xor 64 h mixed) children

-- `hash_int` is `std::hash<int>`.
unfoldable pub compute_hash : (ℕ → ℕ) → (ℕ → ℕ) → OperatorType → List ℕ → ℕ
compute_hash hash_int hash_id op_type children =
    mix_children hash_id (hash_int (op_number op_type)) children

pub record GroupExpression : Type 0 where
  pub op_type : OperatorType
  pub children : List ℕ
  pub hash : ℕ
  pub target_group_id : ℕ

-- `physical_expressions_` and `is_explored_` are never written.
pub record Group : Type 0 where
  pub id : ℕ
  pub logical_expressions : List GroupExpression

unfoldable pub create_group : ℕ → Group
create_group id = record { id = id; logical_expressions = [] }

unfoldable pub add_expression : GroupExpression → Group → Group
add_expression expr g = record g { logical_expressions = g.logical_expressions ++ expr ∷ [] }

pub record Memo : Type 0 where
  pub groups : List Group
  pub expr_map : List (ℕ × GroupExpression)

unfoldable pub create : Memo
create = record { groups = []; expr_map = [] }

-- `groups_[i]->AddExpression(expr)`; `none` is an index out of range.
unfoldable pub add_to : ℕ → GroupExpression → List Group → Option (List Group)
add_to i expr [] = none
add_to zero expr (g ∷ gs) = some (add_expression expr g ∷ gs)
add_to (suc i) expr (g ∷ gs) = elim (add_to i expr gs) [ none ↦ none | some hs ↦ some (g ∷ hs) ]

-- The end of `InsertExpression`, with the group that was assigned.
unfoldable pub assign : GroupExpression → ℕ → List Group → Eff Memo ℕ
assign expr group groups m =
    let expr' = record expr { target_group_id = group } in
    elim (add_to (group - 1) expr' groups) [
      | none ↦ fault
      | some groups' ↦
          done group
            (record { groups = groups'; expr_map = insert ℕ_discrete expr.hash expr' m.expr_map })
    ]

-- A new group gets the number behind the last, cast to 32 bits; number 0 asks for one.
unfoldable pub insert_expression : GroupExpression → ℕ → Eff Memo ℕ
insert_expression expr target_group m = elim (find ℕ_discrete expr.hash m.expr_map) [
  | some old ↦ done old.target_group_id m
  | none ↦
      let new_group = (length m.groups + 1) % 2 ^ 32 in
      if target_group == 0
      then assign expr new_group (m.groups ++ create_group new_group ∷ []) m
      else assign expr target_group m.groups m
]
