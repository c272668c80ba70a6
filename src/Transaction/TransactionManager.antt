-- ===== src/Transaction/TransactionManager.antt =====
-- src/transaction/transaction.h and transaction_manager.h. The epoch manager and the log are parts of
-- the state; calls are taken one after the other.
pub mod Live
pub mod Invariant
pub mod Ended
use native.Mathlib.Decide.{ℕ_discrete}
use stingdb.Base.{
  ℕ, zero, suc, ◌+◌, ◌%◌, ◌^◌, Bool, true, false, List, [], ◌∷◌, ◌++◌, Option, none, some,
  if◌then◌else◌,
}
use stingdb.Base.Effect.{Eff, Outcome, done, thrown, fault, pure}
use stingdb.Base.Table.{find, insert}
use stingdb.Transaction.EpochManager.{EpochManager, enter_epoch, exit_epoch}
use stingdb.Transaction.LogManager.{
  LogRecord, LogRecordType, begin, commit, abort, control_record, LogManager, append_log_record,
  flush,
}

pub data TransactionState : Type 0 where
  active committed pre_abort aborted : TransactionState

pub data IsolationLevel : Type 0 where
  read_uncommitted read_committed repeatable_read serializable : IsolationLevel
  snapshot_isolation : IsolationLevel

-- `has_manager` says whether `manager_` points to the epoch manager, the only one there is.
pub record Transaction : Type 0 where
  pub state : TransactionState
  pub isolation_level : IsolationLevel
  pub txn_id : ℕ
  pub read_epoch : ℕ
  pub commit_epoch : ℕ
  pub has_manager : Bool
  pub write_set : List ℕ

unfoldable pub create_transaction : ℕ → IsolationLevel → Transaction
create_transaction txn_id iso_level = record {
  state = active;
  isolation_level = iso_level;
  txn_id = txn_id;
  read_epoch = 0;
  commit_epoch = 0;
  has_manager = false;
  write_set = [];
}

unfoldable pub enter_read_epoch : Transaction → EpochManager → Transaction × EpochManager
enter_read_epoch t epochs =
    let (current, epochs') = enter_epoch epochs in
    (record t { read_epoch = current; has_manager = true }, epochs')

-- `Transaction::Commit` and `Transaction::Abort` differ in the state they set.
unfoldable pub finish : TransactionState → Transaction → EpochManager → Transaction × EpochManager
finish state t epochs =
    (record t { state = state }, if t.has_manager then exit_epoch t.read_epoch epochs else epochs)

unfoldable pub append_write_set : ℕ → Transaction → Transaction
append_write_set lsn t = record t { write_set = t.write_set ++ lsn ∷ [] }

unfoldable pub is_aborted : TransactionState → Bool
is_aborted aborted = true
is_aborted active = false
is_aborted committed = false
is_aborted pre_abort = false

unfoldable pub is_committed : TransactionState → Bool
is_committed committed = true
is_committed active = false
is_committed pre_abort = false
is_committed aborted = false

-- A `Transaction*` is a number in `txn_map`.
pub record TransactionManager : Type 0 where
  pub next_txn_id : ℕ
  pub log_manager : LogManager
  pub epoch_manager : EpochManager
  pub txn_map : List (ℕ × Transaction)

-- `emplace`, which leaves a number alone that is there.
unfoldable pub emplace : ℕ → Transaction → List (ℕ × Transaction) → List (ℕ × Transaction)
emplace id t txns = elim (find ℕ_discrete id txns) [
  | none ↦ insert ℕ_discrete id t txns
  | some _ ↦ txns
]

unfoldable pub begin_transaction : IsolationLevel → TransactionManager → ℕ × TransactionManager
begin_transaction iso_level m =
    let new_id = m.next_txn_id in
    let entered = enter_read_epoch (create_transaction new_id iso_level) m.epoch_manager in
    let logged = append_log_record (control_record new_id 0 begin) m.log_manager in
    (
      new_id,
      record {
        next_txn_id = (new_id + 1) % 2 ^ 64;
        log_manager = logged.1;
        epoch_manager = entered.1;
        txn_map = emplace new_id (append_write_set logged.0 entered.0) m.txn_map;
      },
    )

-- What `Commit` and `Abort` do with the transaction, found as `t`, once its state was looked at.
unfoldable pub conclude :
    ℕ → Transaction → TransactionState → LogManager → TransactionManager → TransactionManager
conclude id t state log m =
    let finished = finish state t m.epoch_manager in
    record m {
      log_manager = log;
      epoch_manager = finished.1;
      txn_map = insert ℕ_discrete id finished.0 m.txn_map;
    }

unfoldable pub commit_transaction : ℕ → Eff TransactionManager (Unit {0})
commit_transaction id m = elim (find ℕ_discrete id m.txn_map) [
  | none ↦ fault
  | some t ↦
      let logged = append_log_record (control_record t.txn_id 0 commit) m.log_manager in
      if is_aborted t.state then done tt m else done tt (conclude id t committed (flush logged.1) m)
]

unfoldable pub abort_transaction : ℕ → Eff TransactionManager (Unit {0})
abort_transaction id m = elim (find ℕ_discrete id m.txn_map) [
  | none ↦ fault
  | some t ↦
      let logged = append_log_record (control_record t.txn_id 0 abort) m.log_manager in
      if is_committed t.state then done tt m else done tt (conclude id t aborted logged.1 m)
]
