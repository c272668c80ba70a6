-- ===== src/Network/Connection/Failed.antt =====
-- What an INSERT or a SELECT leaves behind when it fails.
use stingdb.Base.{ℕ, ◌+◌, ◌^◌, ◌<◌, ◌≡◌, refl, Bool, none, ◌++◌, List}
use stingdb.Base.Effect.{Error, done, table_not_found, insert_target_not_found}
use stingdb.Storage.Disk.{Device}
use stingdb.Execution.Instance.{Instance}
use stingdb.Execution.Ledger.{IsOpen}
use stingdb.Network.Connection.{
  failed, starts_with, handle_query, run_query, insert_text, select_text,
}
use stingdb.Network.Connection.Insert.{run_insert-IsUnlisted}
use stingdb.Network.Connection.Select.{run_select-IsUnlisted}
use stingdb.Network.Connection.Shown.{Shows}

module _ {D : Type 0} (asserts : Bool) (io : Device D) (fuel next : ℕ) (s : Instance D)
    (shows : Shows (record { table = none; next_txn = next }) s) (small : next + 1 < 2 ^ 64)
    (rest : List ℕ) where
  -- A query that fails, and leaves a transaction behind that has not ended.
  abbrev pub Leaks : List ℕ → Error → Type 0
  Leaks query e =
      (t : Instance D) × (handle_query asserts io fuel query s ≡ done (failed e) t)
      × IsOpen next t.txns

  insert-Leaks : Leaks (insert_text ++ rest) insert_target_not_found
  unfolding handle_query run_query starts_with
  insert-Leaks =
      let (t, e, _, _, _, is_open) =
        run_insert-IsUnlisted next s (shows.1) small asserts io fuel (shows.0.0) in
      (t, rw e refl, is_open)

  select-Leaks : Leaks (select_text ++ rest) table_not_found
  unfolding handle_query run_query starts_with
  select-Leaks =
      let (t, e, _, _, _, is_open) =
        run_select-IsUnlisted next s (shows.1) small asserts io fuel (shows.0.0) in
      (t, rw e refl, is_open)

  -- A query that starts with INSERT or with SELECT, on an instance that shows no table, is answered
  -- with its error, and the transaction that was begun for it, under the next number, is left active.
  -- This needs a number that does not wrap.
  pub handle_query-Leaks :
      Leaks (insert_text ++ rest) insert_target_not_found
      × Leaks (select_text ++ rest) table_not_found
  handle_query-Leaks = (insert-Leaks, select-Leaks)
