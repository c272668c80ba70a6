-- ===== src/Execution/Ledger.antt =====
-- The transaction manager under executors: the transactions they begin, log for and commit.
use native.Mathlib.Decide.{ℕ_discrete}
use stingdb.Base.{
  ℕ, ◌+◌, ◌%◌, ◌^◌, ◌≤◌, ◌<◌, ◌≡◌, ◌≢◌, refl, sym, ◌∙◌, ap, ltb, inl, inr, none, some, length,
  arith, Bool-cases,
}
use stingdb.Base.Effect.{done}
use stingdb.Base.Table.{find, insert, find-insert_self, find-insert_ne}
use stingdb.Transaction.LogManager.{
  LogRecord, LogManager, append_log_record, swap_buffers, control_record, flush, begin, commit,
}
use stingdb.Transaction.TransactionManager.{
  Transaction, active, committed, TransactionManager, IsolationLevel, create_transaction,
  enter_read_epoch, append_write_set, emplace, begin_transaction, conclude, finish,
  commit_transaction, is_aborted,
}
use stingdb.Execution.Instance.{txn_at, extend_write_set, append_log}

-- `next` is the next transaction number, no number from it on is in use, and log numbers have 64
-- bits.
pub record Ledger (next : ℕ) (m : TransactionManager) : Type 0 where
  pub at_next : m.next_txn_id ≡ next
  pub unused : (id : ℕ) → next ≤ id → find ℕ_discrete id m.txn_map ≡ none
  pub numbered : m.log_manager.next_lsn < 2 ^ 64

-- Transaction `id` is there and has not ended.
abbrev pub IsOpen : ℕ → TransactionManager → Type 0
IsOpen id m = (t : Transaction) × (find ℕ_discrete id m.txn_map ≡ some t) × (t.state ≡ active)

pub lsn-append_log_record :
    (r : LogRecord) (m : LogManager)
    → ((append_log_record r m).0 ≡ m.next_lsn) × ((append_log_record r m).1.next_lsn < 2 ^ 64)
unfolding append_log_record swap_buffers
lsn-append_log_record r m =
    elim (Bool-cases (ltb (length m.log_buffer) ((m.log_buffer_offset + r.size) % 2 ^ 64))) [
      | inl full ↦ rw full (refl, omega arith)
      | inr free ↦ rw free (refl, omega arith)
    ]

pub next_lsn-append_log_record :
    (r : LogRecord) (m : LogManager)
    → (append_log_record r m).1.next_lsn ≡ (m.next_lsn + 1) % 2 ^ 64
unfolding append_log_record swap_buffers
next_lsn-append_log_record r m =
    elim (Bool-cases (ltb (length m.log_buffer) ((m.log_buffer_offset + r.size) % 2 ^ 64))) [
      | inl full ↦ rw full refl
      | inr free ↦ rw free refl
    ]

lsn-flush : (m : LogManager) → (flush m).next_lsn ≡ m.next_lsn
unfolding flush swap_buffers
lsn-flush m = refl

module _ (next : ℕ) (m : TransactionManager) (ledger : Ledger next m) where
  -- An entry that is there has a number below the next.
  taken :
      (id : ℕ) (t : Transaction)
      → find ℕ_discrete id m.txn_map ≡ some t
      → (j : ℕ) → next ≤ j
      → j ≢ id
  taken id t e j le same = clash (ledger.unused id (omega (arith, same)))
    where
      clash : find ℕ_discrete id m.txn_map ≡ none → ⊥
      clash f = cc

  unused-insert :
      (id : ℕ) (t u : Transaction)
      → find ℕ_discrete id m.txn_map ≡ some t
      → (j : ℕ) → next ≤ j
      → find ℕ_discrete j (insert ℕ_discrete id u m.txn_map) ≡ none
  unused-insert id t u e j le =
      find-insert_ne ℕ_discrete id j u m.txn_map (taken id t e j le) ∙ ledger.unused j le

  pub begin_transaction-Ledger :
      (iso_level : IsolationLevel)
      → next + 1 < 2 ^ 64
      → (m' : TransactionManager) × (begin_transaction iso_level m ≡ (next, m'))
        × Ledger (next + 1) m'
        × IsOpen next m'
  unfolding begin_transaction emplace enter_read_epoch create_transaction append_write_set
  begin_transaction-Ledger iso_level room = (
    (begin_transaction iso_level m).1,
    ap (λ (n : ℕ). (n, (begin_transaction iso_level m).1)) ledger.at_next,
    record {
      at_next = omega (arith, ledger.at_next);
      unused = λ id le.
          ap (find ℕ_discrete id) map_eq
          ∙ find-insert_ne ℕ_discrete m.next_txn_id id begun m.txn_map
              (λ e. absurd (omega (arith, ledger.at_next)))
          ∙ ledger.unused id (omega arith);
      numbered = (lsn-append_log_record (control_record m.next_txn_id 0 begin) m.log_manager).1;
    },
    (
      begun,
      ap (find ℕ_discrete next) map_eq
          ∙ ap (λ n. find ℕ_discrete n (insert ℕ_discrete m.next_txn_id begun m.txn_map))
              (sym ledger.at_next)
          ∙ find-insert_self ℕ_discrete m.next_txn_id begun m.txn_map,
      refl,
    ),
  )
    where
      begun : Transaction
      begun =
          append_write_set
            (append_log_record (control_record m.next_txn_id 0 begin) m.log_manager).0
            (enter_read_epoch (create_transaction m.next_txn_id iso_level) m.epoch_manager).0

      new : find ℕ_discrete m.next_txn_id m.txn_map ≡ none
      new = ledger.unused m.next_txn_id (omega (arith, ledger.at_next))

      map_eq :
          (begin_transaction iso_level m).1.txn_map
          ≡ insert ℕ_discrete m.next_txn_id begun m.txn_map
      map_eq = rw (new, emplace) refl

  pub append_log-Ledger :
      (id : ℕ)
      → IsOpen id m
      → (r : LogRecord)
      → (lsn : ℕ) × (m' : TransactionManager) × (append_log r m ≡ done lsn m')
        × (lsn < 2 ^ 64)
        × Ledger next m'
        × IsOpen id m'
  unfolding append_log
  append_log-Ledger id is_open r =
      let (number, small) = lsn-append_log_record r m.log_manager in
      (
        (append_log_record r m.log_manager).0,
        record m { log_manager = (append_log_record r m.log_manager).1 },
        refl,
        omega (arith, number, ledger.numbered),
        record { at_next = ledger.at_next; unused = ledger.unused; numbered = small },
        is_open,
      )

  pub extend_write_set-Ledger :
      (id lsn : ℕ)
      → IsOpen id m
      → (m' : TransactionManager) × (extend_write_set id lsn m ≡ done tt m')
        × Ledger next m'
        × IsOpen id m'
  unfolding extend_write_set append_write_set
  extend_write_set-Ledger id lsn (t, there, now) = (
    record m { txn_map = insert ℕ_discrete id (append_write_set lsn t) m.txn_map },
    rw (there, extend_write_set) refl,
    record {
      at_next = ledger.at_next;
      unused = unused-insert id t (append_write_set lsn t) there;
      numbered = ledger.numbered;
    },
    (
      append_write_set lsn t,
      find-insert_self ℕ_discrete id (append_write_set lsn t) m.txn_map,
      now,
    ),
  )

  pub commit_transaction-Ledger :
      (id : ℕ)
      → IsOpen id m
      → (m' : TransactionManager) × (commit_transaction id m ≡ done tt m') × Ledger next m'
  unfolding commit_transaction is_aborted conclude finish
  commit_transaction-Ledger id (t, there, now) =
      let log = flush (append_log_record (control_record t.txn_id 0 commit) m.log_manager).1 in
      (
        conclude id t committed log m,
        rw (there, commit_transaction, now) refl,
        record {
          at_next = ledger.at_next;
          unused = unused-insert id t (finish committed t m.epoch_manager).0 there;
          numbered = omega (
            arith,
            lsn-flush (append_log_record (control_record t.txn_id 0 commit) m.log_manager).1,
            lsn-append_log_record (control_record t.txn_id 0 commit) m.log_manager,
          );
        },
      )

pub txn_at-IsOpen :
    (id : ℕ) (m : TransactionManager) → IsOpen id m → (t : Transaction) × (txn_at id m ≡ done t m)
unfolding txn_at
txn_at-IsOpen id m (t, there, _) = (t, rw (there, txn_at) refl)
