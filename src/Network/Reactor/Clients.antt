-- ===== src/Network/Reactor/Clients.antt =====
-- What one client of the event loop asks and gets.
pub mod Changes
pub mod Received
use native.Mathlib.Decide.{ℕ_discrete}
use mathlib.Core.List.{append_assoc, append-nil}
use stingdb.Base.{
  ℕ, zero, suc, ◌+◌, ◌^◌, ◌<◌, ◌≤◌, ◌≡◌, ◌≢◌, refl, sym, ◌∙◌, ap, inl, inr, Bool, true, false, List,
  [], ◌∷◌, ◌++◌, Option, none, some, arith, length, get_elem?, set, get_elem?-set_self,
  get_elem?-set_ne, get_elem?-lt, get_elem?-append_left, ◌==◌, if◌then◌else◌, eq→==, ne→==,
  Option-cases, subst, some_injective, ap₂,
}
use stingdb.Network.Connection.{Response}
use stingdb.Network.Connection.Server.{reply, statement_of}
use stingdb.Network.Connection.Answer.{Texts}
use stingdb.Storage.Disk.{Device, DiskManager}
use stingdb.Storage.BufferPool
use stingdb.Execution.Instance.{create}
use stingdb.Network.Reactor.Runs.{Run-serve_all, create_server-Serves}
use stingdb.Network.Reactor.{Reactor, Run, create_server, Event, accepted, was_read, was_written}
use stingdb.Network.Reactor.Sessions.{
  no_sessions, Session, Sessions, waiting, ended, answering, sent_text, serve, serve_all, IsTurn,
  AreTurns,
}

-- The answers to the queries of client `i`, when they are asked.
abbrev pub answer_to : Texts → ℕ → Event → Sessions → List (List ℕ)
answer_to texts i (was_read j false query) s =
    if j == i then sent_text texts (reply (statement_of query) s.server).0 ∷ [] else []
answer_to texts i _ s = []

unfoldable pub answers_to : Texts → ℕ → List Event → Sessions → List (List ℕ)
answers_to texts i [] s = []
answers_to texts i (e ∷ events) s =
    answer_to texts i e s ++ answers_to texts i events (serve texts e s).1

-- What client `i` gets, out of what is sent.
abbrev pub receipt : ℕ → Event → List ℕ → List (List ℕ)
receipt i (was_written j false) text = if j == i then text ∷ [] else []
receipt i _ text = []

unfoldable pub receipts : ℕ → List Event → List (List ℕ) → List (List ℕ)
receipts i [] sent = []
receipts i (e ∷ events) [] = []
receipts i (e ∷ events) (text ∷ sent) = receipt i e text ++ receipts i events sent

-- All of `xs` but the last are in `ys`, in order.
abbrev pub IsAllButLast : List (List ℕ) → List (List ℕ) → Type 0
IsAllButLast xs ys = (rest : List (List ℕ)) × (xs ≡ ys ++ rest) × (length rest ≤ 1)
