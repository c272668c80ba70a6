-- ===== src/Network/Reactor/Runs.antt =====
-- Runs of the event loop from the start of a server.
use stingdb.Base.{
  ℕ, suc, ◌+◌, ◌^◌, ◌<◌, ◌≤◌, ◌≡◌, refl, sym, ◌∙◌, ap, some, ap₂, subst, inl, inr, Bool, true,
  false, List, [], ◌∷◌, arith, length, Option-cases, get_elem?,
}
use stingdb.Base.Effect.{Outcome, done}
use stingdb.Storage.Disk.{Device, DiskManager}
use stingdb.Storage.BufferPool
use stingdb.Execution.Instance.{create}
use stingdb.Network.Connection.Answer.{Texts}
use stingdb.Network.Connection.Server.{statement_of}
use stingdb.Network.Connection.Served.{reply-next}
use stingdb.Network.Connection.Shown.{create-Shows}
use stingdb.Network.Reactor.{
  Reactor, Event, accepted, was_read, was_written, IsDue, react, Run, here, next, create_server,
  do_accept,
}
use stingdb.Network.Reactor.Sessions.{
  Sessions, waiting, answering, serve, serve_all, no_sessions, IsTurn, AreTurns,
}
use stingdb.Network.Reactor.Held.{AreHeld-session, AreHeld-get_elem?, Holds-reading, Holds-writing}
use stingdb.Network.Reactor.Serves.{Serves, react-serves}

-- At most one transaction number is used.
serve-next :
    (texts : Texts) (e : Event) (a : Sessions)
    → (serve texts e a).1.server.next_txn ≤ a.server.next_txn + 1
unfolding serve
serve-next texts (accepted true) a = omega arith
serve-next texts (accepted false) a = omega arith
serve-next texts (was_read i true query) a = omega arith
serve-next texts (was_read i false query) a = reply-next (statement_of query) a.server
serve-next texts (was_written i failed) a = elim (Option-cases (get_elem? a.sessions i)) [
  | inl e ↦ rw (e, serve) (omega arith)
  | inr (s, e) ↦ rw (e, serve) (omega arith)
]

serve_all-next :
    (texts : Texts) (events : List Event) (a : Sessions)
    → (serve_all texts events a).1.server.next_txn ≤ a.server.next_txn + length events
unfolding serve_all
serve_all-next texts [] a = omega arith
serve_all-next texts (e ∷ events) a =
    omega (arith, serve-next texts e a, serve_all-next texts events (serve texts e a).1)

pub create_server-Serves :
    {D : Type 0} (texts : Texts) (threads size : ℕ) (disk : DiskManager D)
    → disk.next_page_id < 0xffff_ffff
    → Serves texts no_sessions (create_server threads (create (BufferPool.create (suc size) disk)))
unfolding create_server do_accept
create_server-Serves texts threads size disk numbers = record {
  accepts = refl;
  shows = create-Shows size disk numbers;
  held = tt;
}

done_injective :
    {S A : Type 0} (a b : A) (s t : S)
    → ◌≡◌ {A = Outcome S A} (done a s) (done b t)
    → (a ≡ b) × (s ≡ t)
done_injective a b s t e = (cc, cc)

module _ {D : Type 0} (texts : Texts) (asserts : Bool) (io : Device D) (fuel : ℕ) where
  IsDue-IsTurn :
      (e : Event) (a : Sessions) (r : Reactor D) → Serves texts a r → IsDue e r → IsTurn e a
  IsDue-IsTurn (accepted failed) a r h due = tt
  IsDue-IsTurn (was_read i failed query) a r h (c, at, is_reading, fits) =
      let (s, found, holds) = AreHeld-get_elem? texts a.sessions r.connections i c (h.held) at in
      (found ∙ ap some (Holds-reading texts s c holds is_reading).0, fits)
  IsDue-IsTurn (was_written i failed) a r h (c, len, at, is_writing) =
      let (s, found, holds) = AreHeld-get_elem? texts a.sessions r.connections i c (h.held) at in
      let (response, is_answering, _, _) = Holds-writing texts s c len holds is_writing in
      (response, found ∙ ap some is_answering)

  pub Run-serve_all :
      {r u : Reactor D} {events : List Event} {sent : List (List ℕ)}
      → Run texts asserts io fuel r events sent u
      → (a : Sessions) → Serves texts a r
      → a.server.next_txn + length events < 2 ^ 64
      → (sent ≡ (serve_all texts events a).0)
        × AreTurns texts events a
        × Serves texts (serve_all texts events a).1 u
  unfolding serve_all
  Run-serve_all (here r) a h small = (refl, tt, h)
  Run-serve_all (next {r} {t} {e = e} {events} {sent} due returns run) a h small =
      let (t', returns', h') =
        react-serves texts asserts io fuel e a r h due (omega (arith, small)) in
      let (same_text, same) =
        done_injective sent (serve texts e a).0 t t' (sym returns ∙ returns') in
      let (rest, turns, h'') =
        Run-serve_all run (serve texts e a).1
          (subst (Serves texts (serve texts e a).1) (sym same) h')
          (omega (arith, small, serve-next texts e a)) in
      (ap₂ ◌∷◌ same_text rest, (IsDue-IsTurn e a r h due, turns), h'')

  pub IsTurn-IsDue :
      (e : Event) (a : Sessions) (r : Reactor D) → Serves texts a r → IsTurn e a → IsDue e r
  IsTurn-IsDue (accepted failed) a r h turn = h.accepts
  IsTurn-IsDue (was_read i failed query) a r h (waits, fits) =
      let (c, at, holds) =
        AreHeld-session texts a.sessions r.connections i waiting (h.held) waits in
      (c, at, holds.0, fits)
  IsTurn-IsDue (was_written i failed) a r h (response, answers) =
      let (c, at, holds) =
        AreHeld-session texts a.sessions r.connections i (answering response) (h.held) answers in
      (c, holds.0, at, holds.1)

  -- The event loop can be run with any clients that take turns.
  pub AreTurns-Run :
      (events : List Event) (a : Sessions) (r : Reactor D)
      → Serves texts a r
      → AreTurns texts events a
      → a.server.next_txn + length events < 2 ^ 64
      → (u : Reactor D) × Run texts asserts io fuel r events (serve_all texts events a).0 u
  unfolding serve_all
  AreTurns-Run [] a r h turns small = (r, here r)
  AreTurns-Run (e ∷ events) a r h (turn, turns) small =
      let due = IsTurn-IsDue e a r h turn in
      let (t, returns, h') =
        react-serves texts asserts io fuel e a r h due (omega (arith, small)) in
      let (u, run) =
        AreTurns-Run events (serve texts e a).1 t h' turns
          (omega (arith, small, serve-next texts e a)) in
      (u, next due returns run)

  -- On a new instance with a pool of at least one frame over a file with a page number left, the event
  -- loop can be run with any clients and any order of events in which a client asks, in at most 8192
  -- bytes, only while it waits, and a write ends only while it is answered: no handler faults or
  -- throws, and what is sent is what an abstract server sends that answers the queries of all clients
  -- in the order in which they are read. There SELECT reports the rows that the INSERTs before it
  -- stored, up to the 31 that fit the table's page, a second CREATE TABLE and an INSERT or SELECT
  -- before the first are refused, and each INSERT, SELECT and BEGIN takes the next transaction number.
  -- This holds for less than 2 ^ 64 - 1 events.
  pub AreTurns-served :
      (threads size : ℕ) (disk : DiskManager D) (events : List Event)
      → disk.next_page_id < 0xffff_ffff
      → 1 + length events < 2 ^ 64
      → AreTurns texts events no_sessions
      → (u : Reactor D) × Run texts asserts io fuel
          (create_server threads (create (BufferPool.create (suc size) disk)))
          events
          (serve_all texts events no_sessions).0
          u
  AreTurns-served threads size disk events numbers small turns =
      AreTurns-Run events no_sessions
        (create_server threads (create (BufferPool.create (suc size) disk)))
        (create_server-Serves texts threads size disk numbers) turns (omega (arith, small))

  -- In every run of the event loop from the start of a server, on a new instance with a pool of at
  -- least one frame over a file with a page number left, the clients get what an abstract server sends
  -- that answers the queries of all connections one by one: a client that is accepted waits, its query
  -- is answered with the text of the reply, cut at 8192 bytes, as soon as the socket writes it, and it
  -- is gone after an error of its read or of its write, which no other client notices. At the end of
  -- the run the server waits for one more connection, and the handler of any event that is due returns,
  -- with what the abstract server sends. This
  -- holds for less than 2 ^ 64 - 2 events, every device and fuel, and handlers that are not interrupted.
  pub react-served :
      (threads size : ℕ) (disk : DiskManager D) {events : List Event} {sent : List (List ℕ)}
      {u : Reactor D} (e : Event)
      → disk.next_page_id < 0xffff_ffff
      → 2 + length events < 2 ^ 64
      → Run texts asserts io fuel
          (create_server threads (create (BufferPool.create (suc size) disk)))
          events
          sent
          u
      → IsDue e u
      → (sent ≡ (serve_all texts events no_sessions).0)
        × (u.accepting ≡ true)
        × ((t : Reactor D) × (react texts asserts io fuel e u
              ≡ done (serve texts e (serve_all texts events no_sessions).1).0 t))
  react-served threads size disk {events} {u} e numbers small run due =
      let (same, _, serves) =
        Run-serve_all run no_sessions (create_server-Serves texts threads size disk numbers)
          (omega (arith, small)) in
      let (t, returns, _) =
        react-serves texts asserts io fuel e (serve_all texts events no_sessions).1 u serves due
          (omega (arith, small, serve_all-next texts events no_sessions)) in
      (same, serves.accepts, (t, returns))
