-- ===== src/Transaction/LogManager/Appended.antt =====
-- What appending and flushing keep.
use stingdb.Base.{
  ℕ, zero, suc, ◌+◌, ◌%◌, ◌^◌, ◌≤◌, ◌<◌, ◌≡◌, refl, List, [], ◌∷◌, ltb, length, length-replicate,
  arith, ◌⊎◌, inl, inr, Bool-cases,
}
use stingdb.Transaction.LogManager.{
  LogRecord, LogManager, create, swap_buffers, append_log_record, flush,
}

-- Both buffers have two pages, and what is in use of them fits.
pub record IsWithin (m : LogManager) : Type 0 where
  pub log_size : length m.log_buffer ≡ 16384
  pub flush_buffer_size : length m.flush_buffer ≡ 16384
  pub used : m.log_buffer_offset ≤ 16384
  pub flushing : m.flush_size ≤ 16384
  pub numbered : (0 < m.next_lsn) × (m.next_lsn < 2 ^ 64)

pub create-IsWithin : IsWithin create
unfolding create
create-IsWithin = record {
  log_size = length-replicate {A = ℕ} 16384 0;
  flush_buffer_size = length-replicate {A = ℕ} 16384 0;
  used = omega arith;
  flushing = omega arith;
  numbered = (omega arith, omega arith);
}

-- A record that fits a buffer gets the next number, where the numbers fit 64 bits. It takes its
-- place behind the others, or at the start of the other buffer where it does not fit there; both
-- stay within their size.
pub append_log_record_lem :
    (r : LogRecord) (m : LogManager)
    → IsWithin m
    → r.size ≤ 16384
    → m.next_lsn + 1 < 2 ^ 64
    → ((append_log_record r m).0 ≡ m.next_lsn)
      × IsWithin (append_log_record r m).1
      × ((append_log_record r m).1.next_lsn ≡ m.next_lsn + 1)
      × (((append_log_record r m).1.log_buffer_offset ≡ m.log_buffer_offset + r.size)
          ⊎ (((append_log_record r m).1.log_buffer_offset ≡ r.size)
              × ((append_log_record r m).1.flush_size ≡ m.log_buffer_offset)
              × (16384 < m.log_buffer_offset + r.size)))
unfolding append_log_record swap_buffers
append_log_record_lem r m ok fits room =
    elim (Bool-cases (ltb (length m.log_buffer) ((m.log_buffer_offset + r.size) % 2 ^ 64))) [
      | inl full ↦ rw full (
        refl,
        record {
          log_size = ok.flush_buffer_size;
          flush_buffer_size = ok.log_size;
          used = omega arith;
          flushing = ok.used;
          numbered = (omega arith, omega arith);
        },
        omega arith,
        inr (omega arith, refl, ground (arith, ok.log_size)),
      )
      | inr free ↦ rw free (
        refl,
        record {
          log_size = ok.log_size;
          flush_buffer_size = ok.flush_buffer_size;
          used = ground (arith, ok.log_size);
          flushing = ok.flushing;
          numbered = (omega arith, omega arith);
        },
        omega arith,
        inl (omega (arith, ok.used)),
      )
    ]

-- Records that are appended one after the other.
unfoldable pub append_all : List LogRecord → LogManager → List ℕ × LogManager
append_all [] m = ([], m)
append_all (r ∷ rs) m =
    let (lsn, m') = append_log_record r m in
    let (lsns, last) = append_all rs m' in (lsn ∷ lsns, last)

unfoldable pub consecutive : ℕ → ℕ → List ℕ
consecutive from zero = []
consecutive from (suc n) = from ∷ consecutive (from + 1) n

lsn-append :
    (r : LogRecord) (m : LogManager)
    → ((append_log_record r m).0 ≡ m.next_lsn)
      × ((append_log_record r m).1.next_lsn ≡ (m.next_lsn + 1) % 2 ^ 64)
unfolding append_log_record swap_buffers
lsn-append r m =
    elim (Bool-cases (ltb (length m.log_buffer) ((m.log_buffer_offset + r.size) % 2 ^ 64))) [
      | inl full ↦ rw full (refl, refl)
      | inr free ↦ rw free (refl, refl)
    ]

-- The numbers of records appended one after the other count up by one, whatever their sizes and the
-- swaps of the buffers, while they fit 64 bits; so no two of them are equal.
pub append_all-consecutive :
    (rs : List LogRecord) (m : LogManager)
    → m.next_lsn + length rs < 2 ^ 64
    → ((append_all rs m).0 ≡ consecutive m.next_lsn (length rs))
      × ((append_all rs m).1.next_lsn ≡ m.next_lsn + length rs)
unfolding append_all consecutive
append_all-consecutive [] m h = (refl, omega arith)
append_all-consecutive (r ∷ rs) m h =
    let (first, next) = lsn-append r m in
    let (rest, last) = append_all-consecutive rs (append_log_record r m).1 (omega (arith, next)) in
    let step : (append_log_record r m).1.next_lsn ≡ m.next_lsn + 1 = omega (arith, next, h) in
    (rw (first, rest, step) refl, omega (arith, last, next))

-- A flush keeps the numbers and empties both buffers.
pub flush-IsWithin :
    (m : LogManager)
    → IsWithin m
    → IsWithin (flush m)
      × ((flush m).next_lsn ≡ m.next_lsn)
      × ((flush m).log_buffer_offset ≡ 0)
      × ((flush m).flush_size ≡ 0)
unfolding flush swap_buffers
flush-IsWithin m ok = (
  record {
    log_size = ok.flush_buffer_size;
    flush_buffer_size = ok.log_size;
    used = omega arith;
    flushing = omega arith;
    numbered = ok.numbered;
  },
  refl,
  refl,
  refl,
)
