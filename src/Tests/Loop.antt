-- ===== src/Tests/Loop.antt =====
-- Clients of a server over the device in memory.
use stingdb.Base.{length, ℕ, take, ◌≤◌, some, ◌≡◌, refl, true, false, List, [], ◌∷◌, ◌++◌, arith}
use stingdb.Base.Text.{codes, digits}
use stingdb.Base.Effect.{done}
use stingdb.Storage.BufferPool
use stingdb.Execution.Instance.{create}
use stingdb.Network.Connection.{
  Response, table_created, rows_selected, row_inserted, unsupported, select_text, create_table_text,
  insert_text, starts_with,
}
use stingdb.Network.Connection.Answer.{Texts, response_text}
use stingdb.Network.Session.{max_length}
use stingdb.Network.Reactor.{
  Reactor, Event, accepted, was_read, was_written, Run, create_server, react, IsDue,
}
use stingdb.Network.Reactor.Sessions.{serve, serve_all, no_sessions, AreTurns, waiting, answering}
use stingdb.Network.Reactor.Runs.{
  react-served, AreTurns-served, IsTurn-IsDue, Run-serve_all, create_server-Serves,
}
use stingdb.Network.Reactor.Clients.Received.{receipts-answers}
use stingdb.Network.Reactor.Clients.{answers_to, receipts}
use stingdb.Tests.Device.{Drive, drive}
use stingdb.Tests.Serving.{new_disk, new_instance}

abbrev pub plain : Texts
plain = record { out_of_range_what = []; bad_alloc_what = []; column = [] }

-- Two clients: the first creates the table and stores a row, the second asks for the rows before and
-- after, and its last answer does not arrive.
abbrev pub two_clients : List Event
two_clients =
    accepted false
    ∷ accepted true
    ∷ accepted false
    ∷ was_read 0 false create_table_text
    ∷ was_read 1 false select_text
    ∷ was_written 0 false
    ∷ was_written 1 false
    ∷ was_read 0 false insert_text
    ∷ was_read 1 false select_text
    ∷ was_written 1 false
    ∷ was_written 0 false
    ∷ was_read 0 true []
    ∷ was_read 1 false (codes "DROP")
    ∷ was_written 1 true
    ∷ []

pub two_clients-AreTurns : AreTurns plain two_clients no_sessions
unfolding serve starts_with
two_clients-AreTurns = (
  tt,
  (
    tt,
    (
      tt,
      (
        asks 12 (omega arith),
        (
          asks 6 (omega arith),
          (
            answered table_created,
            (
              answered (rows_selected 0),
              (
                asks 6 (omega arith),
                (
                  asks 6 (omega arith),
                  (
                    answered (rows_selected 1),
                    (
                      answered row_inserted,
                      (asks 0 (omega arith), (asks 4 (omega arith), (answered unsupported, tt))),
                    ),
                  ),
                ),
              ),
            ),
          ),
        ),
      ),
    ),
  ),
)
  where
    asks : (n : ℕ) → n ≤ max_length → (some waiting ≡ some waiting) × (n ≤ max_length)
    asks n fits = (refl, fits)

    answered : (r : Response) → (x : Response) × (some (answering r) ≡ some (answering x))
    answered r = (r, refl)

AreTurns-served_example :
    (u : Reactor Drive) × Run plain true drive 300
      (create_server 4 (create (BufferPool.create 2 new_disk)))
      two_clients
      ([]
        ∷ []
        ∷ []
        ∷ []
        ∷ []
        ∷ (codes "Success: Table 'users' created." ++ b'\n' ∷ [])
        ∷ (codes "Success: 0 rows selected from 'users'." ++ b'\n' ∷ [])
        ∷ []
        ∷ []
        ∷ (codes "Success: 1 rows selected from 'users'." ++ b'\n' ∷ [])
        ∷ (codes "Success: 1 row inserted into 'users'." ++ b'\n' ∷ [])
        ∷ []
        ∷ []
        ∷ []
        ∷ [])
      u
unfolding serve_all response_text starts_with take digits
AreTurns-served_example =
    AreTurns-served plain true drive 300 4 1 new_disk two_clients (omega arith) (omega arith)
      two_clients-AreTurns

-- A client whose query is handled, and whose answer is on its way.
abbrev opening : List Event
opening = accepted false ∷ was_read 0 false create_table_text ∷ []

opening_run :
    (u : Reactor Drive) × Run plain true drive 300
      (create_server 4 new_instance)
      opening
      ([] ∷ [] ∷ [])
      u
unfolding serve_all starts_with
opening_run =
    AreTurns-served plain true drive 300 4 1 new_disk opening (omega arith) (omega arith)
      (tt, ((refl, omega arith), tt))

opening-IsDue : IsDue (was_written 0 false) opening_run.0
unfolding serve_all starts_with
opening-IsDue =
    IsTurn-IsDue plain true drive 300 (was_written 0 false) (serve_all plain opening no_sessions).1
      opening_run.0
      (Run-serve_all plain true drive 300 opening_run.1 no_sessions
        (create_server-Serves plain 4 1 new_disk (omega arith)) (omega arith)).2
      (table_created, refl)

react-served_example :
    ◌≡◌ {A = List (List ℕ)} ([] ∷ [] ∷ []) ([] ∷ [] ∷ [])
    × (opening_run.0.accepting ≡ true)
    × ((t : Reactor Drive) × (react plain true drive 300 (was_written 0 false) opening_run.0
          ≡ done (codes "Success: Table 'users' created." ++ b'\n' ∷ []) t))
unfolding serve_all response_text starts_with take
react-served_example =
    react-served plain true drive 300 4 1 new_disk (was_written 0 false) (omega arith) (omega arith)
      opening_run.1 opening-IsDue

two_clients_run :
    (u : Reactor Drive) × Run plain true drive 300
      (create_server 4 new_instance)
      two_clients
      (serve_all plain two_clients no_sessions).0
      u
two_clients_run =
    AreTurns-served plain true drive 300 4 1 new_disk two_clients (omega arith) (omega arith)
      two_clients-AreTurns

-- The second client asked three times and got the first two answers.
receipts-answers_example :
    (rest : List (List ℕ)) × ◌≡◌ {A = List (List ℕ)}
      ((codes "Success: 0 rows selected from 'users'." ++ b'\n' ∷ [])
        ∷ (codes "Success: 1 rows selected from 'users'." ++ b'\n' ∷ [])
        ∷ (codes "Error: Unsupported statement. Try CREATE TABLE or BEGIN." ++ b'\n' ∷ [])
        ∷ [])
      (((codes "Success: 0 rows selected from 'users'." ++ b'\n' ∷ [])
          ∷ (codes "Success: 1 rows selected from 'users'." ++ b'\n' ∷ [])
          ∷ [])
        ++ rest)
    × (length rest ≤ 1)
unfolding answers_to receipts serve_all response_text starts_with take digits
receipts-answers_example =
    receipts-answers plain true drive 300 4 1 new_disk 1 (omega arith) (omega arith)
      two_clients_run.1
