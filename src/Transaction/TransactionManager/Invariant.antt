-- ===== src/Transaction/TransactionManager/Invariant.antt =====
-- The invariant of src/transaction/transaction_manager.h, and `Begin`.
use native.Mathlib.Decide.{ℕ_discrete}
use stingdb.Base.{
  ℕ, ◌+◌, ◌%◌, ◌^◌, ◌≤◌, ◌<◌, ◌≡◌, ◌≢◌, refl, sym, ◌∙◌, ap, true, false, List, [], ◌∷◌, none, some,
  if◌then◌else◌, ◌==◌, arith, length, count, some_injective, eq→==, ne→==,
}
use stingdb.Base.Table.{find, insert, find-insert_self, find-insert_ne}
use stingdb.Transaction.EpochManager.{EpochManager, enter_epoch}
use stingdb.Transaction.EpochManager.Tracks.{drop_one, Tracks, enter_epoch-Tracks}
use stingdb.Transaction.LogManager.{append_log_record, control_record, begin}
use stingdb.Transaction.TransactionManager.{
  Transaction, active, IsolationLevel, TransactionManager, create_transaction, enter_read_epoch,
  append_write_set, emplace, begin_transaction,
}
use stingdb.Transaction.TransactionManager.Live.{
  is_active, held, live, total, total-insert_new, tally-total, count-total, length-total,
}

-- The counters follow the epochs of the active transactions, and the next number is not in use.
pub record IsValid (m : TransactionManager) : Type 0 where
  pub tracks : Tracks m.epoch_manager (live m.txn_map)
  pub clock : 0 < m.epoch_manager.global_epoch
  pub attached :
      (id : ℕ) (t : Transaction) → find ℕ_discrete id m.txn_map ≡ some t → t.has_manager ≡ true
  pub unused : (id : ℕ) → m.next_txn_id ≤ id → find ℕ_discrete id m.txn_map ≡ none

pub total-drop_one :
    (w : ℕ → ℕ) (e : ℕ) (es : List ℕ) → 0 < count e es → total w (drop_one e es) + w e ≡ total w es
unfolding total drop_one
total-drop_one w e [] h = absurd (omega arith)
total-drop_one w e (g ∷ gs) h = elim (ℕ_discrete g e) [
  | yes same ↦ rw (eq→== g e same, same) (omega arith)
  | no ne ↦
      let rest = total-drop_one w e gs (omega (arith, (rw (ne→== g e ne) at h))) in
      rw (ne→== g e ne) (omega (arith, rest))
]

-- Only how often each epoch occurs matters.
pub Tracks_same :
    (m : EpochManager) (es fs : List ℕ)
    → Tracks m es
    → ((w : ℕ → ℕ) → total w es ≡ total w fs)
    → Tracks m fs
Tracks_same m es fs t same = record {
  counts = λ k. t.counts k ∙ tally-total k es ∙ same _ ∙ sym (tally-total k fs);
  few = omega (arith, t.few, length-total es, length-total fs, same (λ e. 1));
  past = λ e h.
      t.past e
        (omega (arith, count-total e es, count-total e fs, same (λ g. if g == e then 1 else 0)));
}

pub held_on : (t : Transaction) → t.state ≡ active → held t ≡ t.read_epoch ∷ []
held_on t now = rw now refl

pub held_off : (t : Transaction) → is_active t.state ≡ false → held t ≡ []
held_off t off = rw off refl

emplace_new :
    (id : ℕ) (t : Transaction) (txns : List (ℕ × Transaction))
    → find ℕ_discrete id txns ≡ none
    → emplace id t txns ≡ insert ℕ_discrete id t txns
unfolding emplace
emplace_new id t txns h = rw (h, emplace) refl

module _ (m : TransactionManager) (v : IsValid m) where
  module _ (iso_level : IsolationLevel) where
    -- The transaction that `Begin` makes.
    abbrev pub begun : Transaction
    begun = record {
      state = active;
      isolation_level = iso_level;
      txn_id = m.next_txn_id;
      read_epoch = m.epoch_manager.global_epoch;
      commit_epoch = 0;
      has_manager = true;
      write_set = (append_log_record (control_record m.next_txn_id 0 begin) m.log_manager).0 ∷ [];
    }

    abbrev begun_state : TransactionManager
    begun_state = record {
      next_txn_id = (m.next_txn_id + 1) % 2 ^ 64;
      log_manager = (append_log_record (control_record m.next_txn_id 0 begin) m.log_manager).1;
      epoch_manager = (enter_epoch m.epoch_manager).1;
      txn_map = insert ℕ_discrete m.next_txn_id begun m.txn_map;
    }

    call : begin_transaction iso_level m ≡ (m.next_txn_id, begun_state)
    unfolding begin_transaction enter_read_epoch create_transaction append_write_set enter_epoch
    call =
        rw (emplace_new m.next_txn_id begun m.txn_map (v.unused m.next_txn_id (omega arith))) refl

    total-begun :
        (w : ℕ → ℕ)
        → total w (m.epoch_manager.global_epoch ∷ live m.txn_map)
          ≡ total w (live (insert ℕ_discrete m.next_txn_id begun m.txn_map))
    unfolding total
    total-begun w =
        let sum =
          total-insert_new w m.next_txn_id begun m.txn_map (v.unused m.next_txn_id (omega arith)) in
        omega (arith, sum, ap (total w) (held_on begun refl))

    begun-IsValid :
        m.next_txn_id + 1 < 2 ^ 64 → length (live m.txn_map) + 1 < 2 ^ 31 → IsValid begun_state
    unfolding enter_epoch
    begun-IsValid room few = record {
      tracks =
          Tracks_same (enter_epoch m.epoch_manager).1
            (m.epoch_manager.global_epoch ∷ live m.txn_map)
            (live (insert ℕ_discrete m.next_txn_id begun m.txn_map))
            (enter_epoch-Tracks m.epoch_manager (live m.txn_map) v.tracks v.clock few).1
            total-begun;
      clock = v.clock;
      attached = λ id t h. elim (ℕ_discrete id m.next_txn_id) [
        | yes same ↦
            ap (λ (u : Transaction). u.has_manager)
              (some_injective t begun (
                sym h
                ∙ ap (λ j. find ℕ_discrete j begun_state.txn_map) same
                ∙ find-insert_self ℕ_discrete m.next_txn_id begun m.txn_map))
        | no ne ↦
            v.attached id t
              (sym (find-insert_ne ℕ_discrete m.next_txn_id id begun m.txn_map ne) ∙ h)
      ];
      unused = λ id h.
          find-insert_ne ℕ_discrete m.next_txn_id id begun m.txn_map (λ e. absurd (omega arith))
          ∙ v.unused id (omega arith);
    }

    -- `Begin` on a valid manager gives a number that was not in use. Its transaction is active at
    -- the current epoch, with the number of its log record as its write set; the others stay as
    -- they are, and the counters follow. This needs a number that does not wrap and fewer than 2 ^
    -- 31 - 1 active transactions.
    pub begin_transaction-IsValid :
        m.next_txn_id + 1 < 2 ^ 64
        → length (live m.txn_map) + 1 < 2 ^ 31
        → (m' : TransactionManager) × (begin_transaction iso_level m ≡ (m.next_txn_id, m'))
          × IsValid m'
          × (find ℕ_discrete m.next_txn_id m.txn_map ≡ none)
          × (find ℕ_discrete m.next_txn_id m'.txn_map ≡ some begun)
          × ((id : ℕ)
              → id ≢ m.next_txn_id
              → find ℕ_discrete id m'.txn_map ≡ find ℕ_discrete id m.txn_map)
    begin_transaction-IsValid room few = (
      begun_state,
      call,
      begun-IsValid room few,
      v.unused m.next_txn_id (omega arith),
      find-insert_self ℕ_discrete m.next_txn_id begun m.txn_map,
      λ id ne. find-insert_ne ℕ_discrete m.next_txn_id id begun m.txn_map ne,
    )
