-- ===== src/Tests/Serving.antt =====
-- A connection to a new server, as its entry point makes it, over the device in memory.
use stingdb.Base.{ℕ, ◌≡◌, true, List, [], ◌∷◌, ◌++◌, arith}
use stingdb.Base.Bytes.{zeros}
use stingdb.Base.Effect.{done, table_not_found, insert_target_not_found}
use stingdb.Storage.Disk.{DiskManager}
use stingdb.Storage.BufferPool
use stingdb.Execution.Instance.{Instance, create}
use stingdb.Network.Connection.{
  failed, create_table_text, insert_text, select_text, begin_text, handle_query,
}
use stingdb.Network.Connection.Shown.{create-Shows}
use stingdb.Network.Connection.Failed.{handle_query-Leaks}
use stingdb.Execution.Ledger.{IsOpen}
use stingdb.Tests.Device.{Drive, drive}

abbrev pub new_disk : DiskManager Drive
new_disk = record { device = record { pending = 0; file = zeros }; next_page_id = 0 }

abbrev into_users : List ℕ
into_users = b' ' ∷ b'I' ∷ b'N' ∷ b'T' ∷ b'O' ∷ b' ' ∷ b'u' ∷ []

-- SELECT too early, CREATE TABLE twice, two INSERTs, SELECT, BEGIN and DROP.
abbrev queries : List (List ℕ)
queries =
    select_text
    ∷ create_table_text
    ∷ create_table_text
    ∷ (insert_text ++ into_users)
    ∷ insert_text
    ∷ select_text
    ∷ begin_text
    ∷ (b'D' ∷ b'R' ∷ b'O' ∷ b'P' ∷ [])
    ∷ []

abbrev pub new_instance : Instance Drive
new_instance = create (BufferPool.create 2 new_disk)

handle_query-Leaks_example :
    ((t : Instance Drive) × (handle_query true drive 300 (insert_text ++ into_users) new_instance
        ≡ done (failed insert_target_not_found) t)
      × IsOpen 1 t.txns)
    × ((t : Instance Drive) × (handle_query true drive 300 (select_text ++ into_users) new_instance
          ≡ done (failed table_not_found) t)
        × IsOpen 1 t.txns)
handle_query-Leaks_example =
    handle_query-Leaks true drive 300 1 new_instance (create-Shows 1 new_disk (omega arith))
      (omega arith) into_users
