-- ===== src/Execution/Executor.antt =====
-- src/execution/executor.h, and `DummyValues` of src/network/connection.h.
use stingdb.Base.{Bool, true, false, if◌then◌else◌}
use stingdb.Base.Effect.{Eff, done, pure, ◌>>=◌, within}
use stingdb.Execution.TupleBatch.{TupleBatch, empty_batch, set_num_rows}

-- `ExecutionOperator`, with its own state in `C` on the server's state in `S`. `next` takes the batch
-- that `batch_out` points to, and returns it beside its result.
pub record ExecutionOperator (S C : Type 0) : Type 0 where
  pub init : Eff (C × S) (Unit {0})
  pub next : TupleBatch → Eff (C × S) (Bool × TupleBatch)

-- `FilterExecutor`. Its loop returns in its first round.
unfoldable pub filter : {S C : Type 0} → ExecutionOperator S C → ExecutionOperator S C
filter child = record {
  init = child.init;
  next = λ batch_out. do
    (found, input_batch) ← child.next empty_batch
    if found then pure (true, batch_out) else pure (false, batch_out);
}

-- `DummyValues`: one row, once. The state is `done_`.
unfoldable pub dummy_values : {S : Type 0} → ExecutionOperator S Bool
dummy_values = record {
  init = pure tt;
  next = λ out s. if s.0 then done (false, out) s else done (true, set_num_rows 1 out) (true, s.1);
}

module _ {S C A : Type 0} where
  -- A call on the server's state, beside an operator's own.
  abbrev pub on_server : Eff S A → Eff (C × S) A
  on_server m s = within s (λ t. (s.0, t)) (m s.1)
