-- ===== src/Tests/Device.antt =====
-- A device that meets what the disk manager relies on: a file in memory that takes writes at once,
-- and a ring of 256 entries.
use stingdb.Base.{
  ℕ, ◌+◌, ◌-◌, ◌≤◌, ◌<◌, ◌≡◌, refl, inl, true, false, List, some, ltb, leb, ◌&&◌, if◌then◌else◌,
  length, get_or, arith, zero, suc, some_injective,
}
use stingdb.Base.Bytes.{Bytes, load, length-load, zeros}
use stingdb.Storage.Disk.{Device, DiskManager}
use stingdb.Storage.Disk.Serves.{Serves, Stores}

pub record Drive : Type 0 where
  pub pending : ℕ
  pub file : Bytes

abbrev in_ring : ℕ → ℕ
in_ring n = if ltb n 256 then n else 256

abbrev pub drive : Device Drive
drive = record {
  pread = λ d off n. some (load d.file off n);
  get_sqe = λ d. ltb d.pending 256;
  submit = λ d off b u. record {
    pending = d.pending + 1;
    file = λ i. if leb off i && ltb i (off + 8192) then b (i - off) else d.file i;
  };
  peek_cqe = λ d. (ltb 0 d.pending, d);
  cq_advance = λ d. record d { pending = in_ring d.pending - 1 };
}

pub get_or-load : (m : Bytes) (off n i : ℕ) → i < n → get_or (load m off n) i 0 ≡ m (off + i)
unfolding load
get_or-load m off zero i h = elim h [ ]
get_or-load m off (suc n) zero h = ground arith
get_or-load m off (suc n) (suc i) h = ground (arith, get_or-load m (off + 1) n i)

pub read_length :
    (m : Bytes) (off n : ℕ) (bs : List ℕ) → some (load m off n) ≡ some bs → length bs ≤ n
read_length m off n bs e =
    rw (← some_injective (load m off n) bs e, length-load m off n) (omega arith)

pub read_byte :
    (m : Bytes) (off n i : ℕ) (bs : List ℕ)
    → some (load m off n) ≡ some bs
    → i < n
    → get_or bs i 0 ≡ m (off + i)
read_byte m off n i bs e h = rw (← some_injective (load m off n) bs e) (get_or-load m off n i h)

pub in_ring-lt : (n : ℕ) → in_ring n < 300
in_ring-lt n = ground arith

pub in_ring_more : (n : ℕ) → ltb n 256 ≡ true → in_ring (n + 1) ≡ in_ring n + 1
in_ring_more n h = ground arith

pub in_ring_pos : (n : ℕ) → ltb 0 n ≡ true → 0 < in_ring n
in_ring_pos n h = ground arith

pub in_ring_none : (n : ℕ) → ltb 0 n ≡ false → in_ring n ≡ 0
in_ring_none n h = ground arith

pub in_ring_less : (n : ℕ) → 0 < in_ring n → in_ring (in_ring n - 1) + 1 ≡ in_ring n
in_ring_less n h = ground arith

abbrev pub drive-Serves : Serves drive 300
drive-Serves = record {
  backlog = λ d. in_ring d.pending;
  delay = λ d. 0;
  backlog_fits = λ d. in_ring-lt d.pending;
  delay_fits = λ d. in_ring-lt 0;
  submit_backlog = λ d off b u h. in_ring_more d.pending h;
  peek_backlog = λ d. refl;
  peek_found = λ d h. in_ring_pos d.pending h;
  peek_empty = λ d h. inl (in_ring_none d.pending h);
  advance_backlog = λ d h. in_ring_less d.pending h;
  pread_length = λ d off n bs h. read_length d.file off n bs h;
}

abbrev pub drive-Stores : Stores drive 300 drive-Serves
drive-Stores = record {
  settled = λ d. d.file;
  submit_settled = λ d off b u i h. refl;
  peek_settled = λ d i. refl;
  advance_settled = λ d i. refl;
  pread_settled = λ d off n i bs z h k. read_byte d.file off n i bs h k;
}

abbrev pub new_drive : DiskManager Drive
new_drive = record { device = record { pending = 0; file = zeros }; next_page_id = 0 }
