-- ===== src/Network/Connection/Served.antt =====
-- Queries on an instance, beside the server that it shows.
use stingdb.Base.{
  ℕ, suc, ◌+◌, ◌^◌, ◌<◌, ◌≡◌, refl, inl, inr, Bool, List, [], ◌∷◌, arith, length, Bool-cases,
  Option-cases, ◌≤◌,
}
use stingdb.Base.Effect.{done}
use stingdb.Storage.Disk.{Device, DiskManager}
use stingdb.Storage.BufferPool
use stingdb.Storage.BufferPool.{BufferPool}
use stingdb.Execution.Instance.{Instance, create}
use stingdb.Network.Connection.{
  run_query, handle_query, handle_all, starts_with, create_table_text, insert_text, select_text,
  begin_text,
}
use stingdb.Network.Connection.Server.{
  Server, Statement, create_table, insert, select, begin, other, statement_of, reply, replies,
  new_server,
}
use stingdb.Network.Connection.Shown.{
  Shows, create-Shows, run_create-reply, run_insert-reply, run_select-reply, run_begin-reply,
}

module _ {D : Type 0} (asserts : Bool) (io : Device D) (fuel : ℕ) where
  pub handle_query-reply :
      (query : List ℕ) (server : Server) (s : Instance D)
      → Shows server s
      → server.next_txn + 1 < 2 ^ 64
      → (t : Instance D) × (handle_query asserts io fuel query s
          ≡ done (reply (statement_of query) server).0 t)
        × Shows (reply (statement_of query) server).1 t
  unfolding handle_query run_query
  handle_query-reply query server s shows small =
      elim (Bool-cases (starts_with create_table_text query)) [
        | inl yes_create ↦
            rw yes_create (run_create-reply asserts io fuel server.table server.next_txn s shows)
        | inr no_create ↦ elim (Bool-cases (starts_with insert_text query)) [
          | inl yes_insert ↦
              rw (no_create, yes_insert)
                (run_insert-reply asserts io fuel server.table server.next_txn s shows small)
          | inr no_insert ↦ elim (Bool-cases (starts_with select_text query)) [
            | inl yes_select ↦
                rw (no_create, no_insert, yes_select)
                  (run_select-reply asserts io fuel server.table server.next_txn s shows small)
            | inr no_select ↦ elim (Bool-cases (starts_with begin_text query)) [
              | inl yes_begin ↦
                  rw (no_create, no_insert, no_select, yes_begin)
                    (run_begin-reply asserts io fuel server s shows small)
              | inr no_begin ↦ rw (no_create, no_insert, no_select, no_begin) (s, refl, shows)
            ]
          ]
        ]
      ]

-- At most one transaction number is used.
pub reply-next :
    (statement : Statement) (server : Server)
    → (reply statement server).1.next_txn ≤ server.next_txn + 1
reply-next create_table server = elim (Option-cases server.table) [
  | inl e ↦ rw e (omega arith)
  | inr (r, e) ↦ rw e (omega arith)
]
reply-next insert server = elim (Option-cases server.table) [
  | inl e ↦ rw e (omega arith)
  | inr (r, e) ↦ rw e (omega arith)
]
reply-next select server = elim (Option-cases server.table) [
  | inl e ↦ rw e (omega arith)
  | inr (r, e) ↦ rw e (omega arith)
]
reply-next begin server = omega arith
reply-next other server = omega arith

module _ {D : Type 0} (asserts : Bool) (io : Device D) (fuel : ℕ) where
  pub handle_all-replies :
      (queries : List (List ℕ)) (server : Server) (s : Instance D)
      → Shows server s
      → server.next_txn + length queries < 2 ^ 64
      → (t : Instance D) × (handle_all asserts io fuel queries s
          ≡ done (replies queries server).0 t)
        × Shows (replies queries server).1 t
  unfolding handle_all replies
  handle_all-replies [] server s shows small = (s, refl, shows)
  handle_all-replies (query ∷ queries) server s shows small =
      let (t, e1, shows1) =
        handle_query-reply asserts io fuel query server s shows (omega (arith, small)) in
      let (u, e2, shows2) =
        handle_all-replies queries (reply (statement_of query) server).1 t shows1
          (omega (arith, small, reply-next (statement_of query) server)) in
      (u, rw (e1, e2) refl, shows2)

  -- The queries of a connection to a new instance, with a pool of at least one frame over a file with a
  -- page number left, are answered as by the abstract server that starts without a table: SELECT
  -- reports the rows that the INSERTs before it stored, up to the 31 that fit the table's page, a
  -- second CREATE TABLE and an INSERT or SELECT before the first are refused, and each INSERT, SELECT
  -- and BEGIN takes the next transaction number. This holds for every device, fuel and number of
  -- queries below 2 ^ 64 - 1.
  pub handle_all-served :
      (size : ℕ) (disk : DiskManager D) (queries : List (List ℕ))
      → disk.next_page_id < 0xffff_ffff
      → 1 + length queries < 2 ^ 64
      → (t : Instance D) × (handle_all asserts io fuel queries
            (create (BufferPool.create (suc size) disk))
          ≡ done (replies queries new_server).0 t)
  handle_all-served size disk queries numbers small =
      let (t, e, shows) =
        handle_all-replies queries new_server (create (BufferPool.create (suc size) disk))
          (create-Shows size disk numbers) small in
      (t, e)
