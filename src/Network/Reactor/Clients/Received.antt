-- ===== src/Network/Reactor/Clients/Received.antt =====
-- What one client has got by the end of a run.
use stingdb.Base.{ℕ, suc, ◌+◌, ◌^◌, ◌<◌, sym, Bool, List, arith, length, subst}
use stingdb.Network.Connection.Answer.{Texts}
use stingdb.Storage.Disk.{Device, DiskManager}
use stingdb.Storage.BufferPool
use stingdb.Execution.Instance.{create}
use stingdb.Network.Reactor.Runs.{Run-serve_all, create_server-Serves}
use stingdb.Network.Reactor.{Reactor, Run, create_server, Event}
use stingdb.Network.Reactor.Sessions.{no_sessions}
use stingdb.Network.Reactor.Clients.{answers_to, receipts, IsAllButLast}
use stingdb.Network.Reactor.Clients.Changes.{answers_to-receipts}

module _ {D : Type 0} (texts : Texts) (asserts : Bool) (io : Device D) (fuel : ℕ) where
  -- In every run of the event loop from the start of a server, each client gets the answers to its own
  -- queries and nothing else, in the order in which it asked and each once; at most its last answer is
  -- missing. This holds for less than 2 ^ 64 - 1 events, on a new instance with a pool of at least one
  -- frame over a file with a page number left.
  pub receipts-answers :
      (threads size : ℕ) (disk : DiskManager D) (i : ℕ) {events : List Event} {sent : List (List ℕ)}
      {u : Reactor D}
      → disk.next_page_id < 0xffff_ffff
      → 1 + length events < 2 ^ 64
      → Run texts asserts io fuel
          (create_server threads (create (BufferPool.create (suc size) disk)))
          events
          sent
          u
      → IsAllButLast (answers_to texts i events no_sessions) (receipts i events sent)
  receipts-answers threads size disk i {events} numbers small run =
      let (same, turns, _) =
        Run-serve_all texts asserts io fuel run no_sessions
          (create_server-Serves texts threads size disk numbers) (omega (arith, small)) in
      subst (λ s. IsAllButLast (answers_to texts i events no_sessions) (receipts i events s))
        (sym same) (answers_to-receipts texts i events no_sessions turns)
