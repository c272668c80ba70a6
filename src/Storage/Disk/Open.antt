-- ===== src/Storage/Disk/Open.antt =====
-- The constructor in src/storage/disk/disk_manager.cpp.
use stingdb.Base.{ℕ, Bool, true, false, Option, none, some}
use stingdb.Base.Effect.{open_failed, ring_failed, Eff, done, thrown, ◌>>=◌}
use stingdb.Storage.Disk.{DiskManager}

-- The system calls before there is a file and a ring, over a state `K` of the system. `open_file` says
-- whether O_DIRECT is asked for, and gives a descriptor or nothing on an error; `queue_init` makes a ring
-- of a number of entries, or nothing on an error. A `D` is the open file with its ring.
pub record Kernel (K D : Type 0) : Type 0 where
  pub open_file : K → Bool → Option ℕ × K
  pub queue_init : K → ℕ → ℕ → Option D × K

module _ {K D : Type 0} (kernel : Kernel K D) where
  open kernel use {open_file, queue_init}

  -- The fallback to a file without O_DIRECT.
  unfoldable pub open_db : Eff K ℕ
  open_db k = elim (open_file k true).0 [
    | some fd ↦ done fd (open_file k true).1
    | none ↦ elim (open_file (open_file k true).1 false).0 [
      | some fd ↦ done fd (open_file (open_file k true).1 false).1
      | none ↦ thrown open_failed (open_file (open_file k true).1 false).1
    ]
  ]

  unfoldable pub init_ring : ℕ → Eff K (DiskManager D)
  init_ring fd k = elim (queue_init k fd 256).0 [
    | some d ↦ done (record { device = d; next_page_id = 0 }) (queue_init k fd 256).1
    | none ↦ thrown ring_failed (queue_init k fd 256).1
  ]

  unfoldable pub create_disk : Eff K (DiskManager D)
  unfolding open_db init_ring
  create_disk = do fd ← open_db; init_ring fd
