-- ===== src/Tests/Transactions.antt =====
-- Epochs, the log and transactions from their first state on.
use native.Mathlib.Decide.{ℕ_discrete}
use stingdb.Base.{ℕ, ◌+◌, ◌<◌, ◌≤◌, ◌≡◌, ◌≢◌, refl, List, [], ◌∷◌, none, some, arith, count, length}
use stingdb.Base.Effect.{done, bind}
use stingdb.Base.Table.{find}
use stingdb.Transaction.LogManager
use stingdb.Transaction.EpochManager.{
  EpochManager, create, enter_epoch, advance_epoch, get_oldest_active_epoch,
}
use stingdb.Transaction.EpochManager.Tracks.{
  Tracks, create-Tracks, enter_epoch-Tracks, advance_epoch-Tracks,
}
use stingdb.Transaction.EpochManager.Newest.{Stops, get_oldest_active_epoch-newest}
use stingdb.Transaction.LogManager.{
  LogRecord, insert, control_record, tuple_record, append_log_record, flush,
}
use stingdb.Transaction.LogManager.Appended.{
  IsWithin, create-IsWithin, append_all, consecutive, append_all-consecutive, flush-IsWithin,
}
use stingdb.Transaction.TransactionManager.{
  Transaction, TransactionManager, snapshot_isolation, begin_transaction, commit_transaction,
  abort_transaction, committed, aborted,
}
use stingdb.Transaction.TransactionManager.Live.{live}
use stingdb.Transaction.TransactionManager.Invariant.{IsValid, begun, begin_transaction-IsValid}
use stingdb.Transaction.TransactionManager.Ended.{
  Ends, commit_transaction-Ends, abort_transaction-Ends, abort_transaction-commit_transaction,
  commit_transaction-twice, commit_log, abort_log,
}

clock : 0 < create.global_epoch
unfolding create
clock = omega arith

abbrev entered : EpochManager
entered = (enter_epoch create).1

abbrev entered_epochs : List ℕ
entered_epochs = create.global_epoch ∷ []

entered-Tracks : Tracks entered entered_epochs
entered-Tracks = (enter_epoch-Tracks create [] create-Tracks clock (omega arith)).1

one_entered : 0 < count 1 entered_epochs
unfolding create
one_entered = omega arith

early : entered.global_epoch ≡ 1
unfolding create enter_epoch
early = refl

advance_epoch-Tracks_example : Tracks (advance_epoch entered) entered_epochs
advance_epoch-Tracks_example =
    advance_epoch-Tracks entered entered_epochs entered-Tracks (omega (arith, early))

recent : (e : ℕ) → 0 < count e entered_epochs → entered.global_epoch < e + 1024
recent e h = omega (arith, early)

get_oldest_active_epoch-newest_example :
    Stops entered entered_epochs entered-Tracks recent (get_oldest_active_epoch entered)
get_oldest_active_epoch-newest_example =
    get_oldest_active_epoch-newest entered entered_epochs entered-Tracks recent

abbrev a_record : LogRecord
a_record = tuple_record 1 0 insert (record { page_id = 0; slot_num = 0 }) (7 ∷ 8 ∷ 9 ∷ [])

a_record-fits : a_record.size ≤ 16384
unfolding tuple_record
a_record-fits = omega arith

log_clock : LogManager.create.next_lsn ≡ 1
unfolding LogManager.create
log_clock = refl

append_all-consecutive_example :
    ((append_all (a_record ∷ a_record ∷ []) LogManager.create).0
      ≡ consecutive LogManager.create.next_lsn 2)
    × ((append_all (a_record ∷ a_record ∷ []) LogManager.create).1.next_lsn
        ≡ LogManager.create.next_lsn + 2)
append_all-consecutive_example =
    append_all-consecutive (a_record ∷ a_record ∷ []) LogManager.create (omega (arith, log_clock))

flush-IsWithin_example :
    IsWithin (flush LogManager.create)
    × ((flush LogManager.create).next_lsn ≡ LogManager.create.next_lsn)
    × ((flush LogManager.create).log_buffer_offset ≡ 0)
    × ((flush LogManager.create).flush_size ≡ 0)
flush-IsWithin_example = flush-IsWithin LogManager.create create-IsWithin

-- No transaction was begun yet.
abbrev idle : TransactionManager
idle = record {
  next_txn_id = 1;
  log_manager = LogManager.create;
  epoch_manager = create;
  txn_map = [];
}

idle-IsValid : IsValid idle
unfolding live find
idle-IsValid = record {
  tracks = create-Tracks;
  clock = clock;
  attached = λ id t h. absurd (cc);
  unused = λ id h. refl;
}

none_live : length (live idle.txn_map) ≡ 0
unfolding live
none_live = refl

begin_transaction-IsValid_example :
    (m' : TransactionManager) × (begin_transaction snapshot_isolation idle ≡ (1, m'))
    × IsValid m'
    × (find ℕ_discrete 1 idle.txn_map ≡ none)
    × (find ℕ_discrete 1 m'.txn_map ≡ some (begun idle idle-IsValid snapshot_isolation))
    × ((id : ℕ) → id ≢ 1 → find ℕ_discrete id m'.txn_map ≡ find ℕ_discrete id idle.txn_map)
begin_transaction-IsValid_example =
    begin_transaction-IsValid idle idle-IsValid snapshot_isolation (omega arith)
      (omega (arith, none_live))

abbrev first : Transaction
first = begun idle idle-IsValid snapshot_isolation

busy_all : (m' : TransactionManager) × IsValid m' × (find ℕ_discrete 1 m'.txn_map ≡ some first)
busy_all =
    let (m', _, valid, _, there, _) =
      begin_transaction-IsValid idle idle-IsValid snapshot_isolation (omega arith)
        (omega (arith, none_live)) in
    (m', valid, there)

-- Transaction 1 is active.
abbrev busy : TransactionManager
busy = busy_all.0

commit_transaction-Ends_example :
    (m' : TransactionManager) × (commit_transaction 1 busy ≡ done tt m')
    × Ends busy busy_all.1 1 first busy_all.2 refl committed refl
        (commit_log busy busy_all.1 1 first busy_all.2 refl)
        m'
commit_transaction-Ends_example = commit_transaction-Ends busy busy_all.1 1 first busy_all.2 refl

abort_transaction-Ends_example :
    (m' : TransactionManager) × (abort_transaction 1 busy ≡ done tt m')
    × Ends busy busy_all.1 1 first busy_all.2 refl aborted refl
        (abort_log busy busy_all.1 1 first busy_all.2 refl)
        m'
abort_transaction-Ends_example = abort_transaction-Ends busy busy_all.1 1 first busy_all.2 refl

abort_transaction-commit_transaction_example :
    ((c : TransactionManager) × (commit_transaction 1 busy ≡ done tt c)
      × (bind (commit_transaction 1 busy) (λ _. abort_transaction 1) ≡ done tt c)
      × Ends busy busy_all.1 1 first busy_all.2 refl committed refl
          (commit_log busy busy_all.1 1 first busy_all.2 refl)
          c)
    × ((a : TransactionManager) × (abort_transaction 1 busy ≡ done tt a)
        × (bind (abort_transaction 1 busy) (λ _. commit_transaction 1) ≡ done tt a)
        × Ends busy busy_all.1 1 first busy_all.2 refl aborted refl
            (abort_log busy busy_all.1 1 first busy_all.2 refl)
            a)
abort_transaction-commit_transaction_example =
    abort_transaction-commit_transaction busy busy_all.1 1 first busy_all.2 refl

over_all :
    (m' : TransactionManager) × IsValid m'
    × (find ℕ_discrete 1 m'.txn_map ≡ some (record first { state = committed }))
over_all =
    let (m', _, (valid, there, _, _, _)) =
      commit_transaction-Ends busy busy_all.1 1 first busy_all.2 refl in
    (m', valid, there)

-- It was committed.
abbrev over : TransactionManager
over = over_all.0

commit_transaction-twice_example :
    (m' : TransactionManager) × (commit_transaction 1 over ≡ done tt m')
    × (¬ Tracks m'.epoch_manager (live m'.txn_map))
commit_transaction-twice_example =
    commit_transaction-twice over over_all.1 1 (record first { state = committed }) over_all.2 refl
