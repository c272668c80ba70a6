-- ===== src/Transaction/LogManager.antt =====
-- src/transaction/log_record.h and log_manager.h. A call holds the latch; nobody waits on the
-- condition variable.
pub mod Appended
use stingdb.Base.{
  ℕ, zero, suc, ◌+◌, ◌*◌, ◌%◌, ◌^◌, Bool, List, [], ◌∷◌, Option, none, some, ltb, ◌==◌,
  if◌then◌else◌, length, replicate,
}
use stingdb.Storage.Page.{page_size}
use stingdb.Storage.SlottedPage.{Rid}

pub data LogRecordType : Type 0 where
  invalid insert mark_delete apply_delete update begin commit abort : LogRecordType

pub record LogRecord : Type 0 where
  pub size : ℕ
  pub kind : LogRecordType
  pub txn_id : ℕ
  pub prev_lsn : ℕ
  pub insert_rid : Option Rid
  pub insert_tuple : List ℕ

abbrev pub header_size : ℕ
header_size = 20

-- The constructor without a tuple; `none` stands for the default `RID`.
unfoldable pub control_record : ℕ → ℕ → LogRecordType → LogRecord
control_record txn_id lsn kind = record {
  size = header_size;
  kind = kind;
  txn_id = txn_id;
  prev_lsn = lsn;
  insert_rid = none;
  insert_tuple = [];
}

-- The constructor with one; `sizeof(RID)` is 8.
unfoldable pub tuple_record : ℕ → ℕ → LogRecordType → Rid → List ℕ → LogRecord
tuple_record txn_id lsn kind rid tuple = record {
  size = (header_size + 8 + length tuple) % 2 ^ 32;
  kind = kind;
  txn_id = txn_id;
  prev_lsn = lsn;
  insert_rid = some rid;
  insert_tuple = tuple;
}

pub record LogManager : Type 0 where
  pub log_buffer : List ℕ
  pub flush_buffer : List ℕ
  pub log_buffer_offset : ℕ
  pub flush_size : ℕ
  pub next_lsn : ℕ

unfoldable pub create : LogManager
create = record {
  log_buffer = replicate (page_size * 2) 0;
  flush_buffer = replicate (page_size * 2) 0;
  log_buffer_offset = 0;
  flush_size = 0;
  next_lsn = 1;
}

unfoldable pub swap_buffers : LogManager → LogManager
swap_buffers m = record m {
  log_buffer = m.flush_buffer;
  flush_buffer = m.log_buffer;
  flush_size = m.log_buffer_offset;
  log_buffer_offset = 0;
}

-- The record's bytes are not copied into the buffer.
unfoldable pub append_log_record : LogRecord → LogManager → ℕ × LogManager
append_log_record r m =
    let full = ltb (length m.log_buffer) ((m.log_buffer_offset + r.size) % 2 ^ 64) in
    let m = if full then swap_buffers m else m in
    (
      m.next_lsn,
      record m {
        log_buffer_offset = (m.log_buffer_offset + r.size) % 2 ^ 64;
        next_lsn = (m.next_lsn + 1) % 2 ^ 64;
      },
    )

unfoldable pub flush : LogManager → LogManager
flush m = record (swap_buffers m) { flush_size = 0 }
