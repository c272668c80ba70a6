-- ===== src/Transaction/TransactionManager/Ended.antt =====
-- `Commit` and `Abort` of src/transaction/transaction_manager.h on a valid manager.
use native.Mathlib.Decide.{ℕ_discrete}
use stingdb.Base.{
  ℕ, ◌+◌, ◌%◌, ◌<◌, ◌≡◌, ◌≢◌, refl, sym, ◌∙◌, ap, false, List, none, some, if◌then◌else◌, ◌==◌,
  arith, count, some_injective, eq→==,
}
use stingdb.Base.Effect.{done, bind}
use stingdb.Base.Table.{find, insert, find-insert_self, find-insert_ne}
use stingdb.Transaction.EpochManager.{exit_epoch}
use stingdb.Transaction.EpochManager.Tracks.{
  tally, tally-length, drop_one, Tracks, exit_epoch-Tracks,
}
use stingdb.Transaction.LogManager.{
  LogManager, append_log_record, control_record, commit, abort, flush,
}
use stingdb.Transaction.TransactionManager.{
  Transaction, TransactionState, active, committed, aborted, TransactionManager, finish, conclude,
  commit_transaction, abort_transaction, is_aborted, is_committed,
}
use stingdb.Transaction.TransactionManager.Live.{
  is_active, live, total, total-insert_known, tally-total, count-total,
}
use stingdb.Transaction.TransactionManager.Invariant.{
  IsValid, total-drop_one, Tracks_same, held_on, held_off,
}

module _ (m : TransactionManager) (v : IsValid m) where
  module _ (id : ℕ) (t : Transaction) (there : find ℕ_discrete id m.txn_map ≡ some t)
      (now : t.state ≡ active) where
    module _ (state : TransactionState) (ended : is_active state ≡ false) (log : LogManager) where
      abbrev ended_txn : Transaction
      ended_txn = record t { state = state }

      abbrev ended_state : TransactionManager
      ended_state = record m {
        log_manager = log;
        epoch_manager = exit_epoch t.read_epoch m.epoch_manager;
        txn_map = insert ℕ_discrete id ended_txn m.txn_map;
      }

      total_ended :
          (w : ℕ → ℕ)
          → total w (live (insert ℕ_discrete id ended_txn m.txn_map)) + w t.read_epoch
            ≡ total w (live m.txn_map)
      unfolding total
      total_ended w = omega (
        arith,
        total-insert_known w id ended_txn t m.txn_map there,
        ap (total w) (held_on t now),
        ap (total w) (held_off ended_txn ended),
      )

      held_there : 0 < count t.read_epoch (live m.txn_map)
      held_there =
          let w : ℕ → ℕ = λ g. if g == t.read_epoch then 1 else 0 in
          let one : w t.read_epoch ≡ 1 = rw (eq→== t.read_epoch t.read_epoch refl) refl in
          omega (arith, count-total t.read_epoch (live m.txn_map), total_ended w, one)

      ended-IsValid : IsValid ended_state
      unfolding exit_epoch
      ended-IsValid = record {
        tracks =
            Tracks_same (exit_epoch t.read_epoch m.epoch_manager)
              (drop_one t.read_epoch (live m.txn_map))
              (live (insert ℕ_discrete id ended_txn m.txn_map))
              (exit_epoch-Tracks m.epoch_manager (live m.txn_map) t.read_epoch v.tracks held_there)
              (λ w.
                omega (
                  arith,
                  total_ended w,
                  total-drop_one w t.read_epoch (live m.txn_map) held_there,
                ));
        clock = v.clock;
        attached = λ j u h. elim (ℕ_discrete j id) [
          | yes same ↦
              ap (λ (u : Transaction). u.has_manager)
                (some_injective u ended_txn (
                  sym h
                  ∙ ap (λ k. find ℕ_discrete k ended_state.txn_map) same
                  ∙ find-insert_self ℕ_discrete id ended_txn m.txn_map))
              ∙ v.attached id t there
          | no ne ↦ v.attached j u (sym (find-insert_ne ℕ_discrete id j ended_txn m.txn_map ne) ∙ h)
        ];
        unused = λ j h.
            find-insert_ne ℕ_discrete id j ended_txn m.txn_map
              (λ e. absurd (clash j (ap (λ k. find ℕ_discrete k m.txn_map) e) (v.unused j h)))
            ∙ v.unused j h;
      }
        where
          clash :
              (j : ℕ)
              → find ℕ_discrete j m.txn_map ≡ find ℕ_discrete id m.txn_map
              → find ℕ_discrete j m.txn_map ≡ none
              → ⊥
          clash j e n = cc

      -- The transaction `id` has ended as `state`, and left its epoch; the others are as they were.
      abbrev pub Ends : TransactionManager → Type 0
      Ends m' =
          IsValid m'
          × (find ℕ_discrete id m'.txn_map ≡ some (record t { state = state }))
          × ((j : ℕ) → j ≢ id → find ℕ_discrete j m'.txn_map ≡ find ℕ_discrete j m.txn_map)
          × (m'.epoch_manager ≡ exit_epoch t.read_epoch m.epoch_manager)
          × (m'.log_manager ≡ log)

      ended-Ends : Ends ended_state
      ended-Ends = (
        ended-IsValid,
        find-insert_self ℕ_discrete id ended_txn m.txn_map,
        λ j ne. find-insert_ne ℕ_discrete id j ended_txn m.txn_map ne,
        refl,
        refl,
      )

    abbrev pub commit_log : LogManager
    commit_log = flush (append_log_record (control_record t.txn_id 0 commit) m.log_manager).1

    abbrev pub abort_log : LogManager
    abort_log = (append_log_record (control_record t.txn_id 0 abort) m.log_manager).1

    -- `Commit` of an active transaction of a valid manager logs and flushes, ends the transaction
    -- as committed and leaves its epoch; the other transactions stay as they are, and the counters
    -- still follow the active ones.
    pub commit_transaction-Ends :
        (m' : TransactionManager) × (commit_transaction id m ≡ done tt m')
        × Ends committed refl commit_log m'
    unfolding commit_transaction is_aborted conclude finish
    commit_transaction-Ends = (
      ended_state committed refl commit_log,
      rw (there, commit_transaction, now, v.attached id t there) refl,
      ended-Ends committed refl commit_log,
    )

    -- `Abort` of an active transaction of a valid manager logs, ends the transaction as aborted and
    -- leaves its epoch; the other transactions stay as they are, and the counters still follow the
    -- active ones.
    pub abort_transaction-Ends :
        (m' : TransactionManager) × (abort_transaction id m ≡ done tt m')
        × Ends aborted refl abort_log m'
    unfolding abort_transaction is_committed conclude finish
    abort_transaction-Ends = (
      ended_state aborted refl abort_log,
      rw (there, abort_transaction, now, v.attached id t there) refl,
      ended-Ends aborted refl abort_log,
    )

    -- `Commit` and then `Abort` of an active transaction of a valid manager end it as committed, once,
    -- as `Commit` alone does: `Abort` then changes nothing, and does not log. So it is with `Abort` and
    -- then `Commit`, which end it as aborted.
    pub abort_transaction-commit_transaction :
        ((c : TransactionManager) × (commit_transaction id m ≡ done tt c)
          × (bind (commit_transaction id m) (λ _. abort_transaction id) ≡ done tt c)
          × Ends committed refl commit_log c)
        × ((a : TransactionManager) × (abort_transaction id m ≡ done tt a)
            × (bind (abort_transaction id m) (λ _. commit_transaction id) ≡ done tt a)
            × Ends aborted refl abort_log a)
    unfolding commit_transaction abort_transaction is_committed is_aborted
    abort_transaction-commit_transaction =
        let (c, e, ends) = commit_transaction-Ends in
        let (a, e', ends') = abort_transaction-Ends in
        (
          (c, e, rw e (rw (ends.1, abort_transaction) refl), ends),
          (a, e', rw e' (rw (ends'.1, commit_transaction) refl), ends'),
        )

  module _ (id : ℕ) (t : Transaction) (there : find ℕ_discrete id m.txn_map ≡ some t) where
    same_live :
        (w : ℕ → ℕ)
        → t.state ≡ committed
        → total w (live (insert ℕ_discrete id (record t { state = committed }) m.txn_map))
          ≡ total w (live m.txn_map)
    unfolding total
    same_live w c = omega (
      arith,
      total-insert_known w id (record t { state = committed }) t m.txn_map there,
      ap (total w) (held_off t (rw c refl)),
      ap (total w) (held_off (record t { state = committed }) refl),
    )

    twice_counts :
        (es : List ℕ)
        → ((w : ℕ → ℕ) → total w es ≡ total w (live m.txn_map))
        → ¬ Tracks (exit_epoch t.read_epoch m.epoch_manager) es
    unfolding exit_epoch
    twice_counts es same tracks =
        let slot = t.read_epoch % 1024 in
        let sums : tally slot es ≡ tally slot (live m.txn_map) =
          tally-total slot es ∙ same _ ∙ sym (tally-total slot (live m.txn_map)) in
        let self = eq→== slot slot refl in
        omega (
          arith,
          v.tracks.counts slot,
          (rw self at (tracks.counts slot)),
          sums,
          tally-length slot (live m.txn_map),
          v.tracks.few,
        )

    -- A second `Commit` of a committed transaction of a valid manager is not stopped: it leaves the
    -- epoch again, and the counters no longer follow the active transactions.
    pub commit_transaction-twice :
        t.state ≡ committed
        → (m' : TransactionManager) × (commit_transaction id m ≡ done tt m')
          × (¬ Tracks m'.epoch_manager (live m'.txn_map))
    unfolding commit_transaction is_aborted conclude finish
    commit_transaction-twice c = (
      record m {
        log_manager = flush (append_log_record (control_record t.txn_id 0 commit) m.log_manager).1;
        epoch_manager = exit_epoch t.read_epoch m.epoch_manager;
        txn_map = insert ℕ_discrete id (record t { state = committed }) m.txn_map;
      },
      rw (there, commit_transaction, c, v.attached id t there) refl,
      twice_counts _ (λ w. same_live w c),
    )
