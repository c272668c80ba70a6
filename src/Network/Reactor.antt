-- ===== src/Network/Reactor.antt =====
-- src/network/server.h: the server as the state that the handlers of its event loop share. Which handler
-- is next is the library's choice. The worker threads take the handlers one after the other.
pub mod Sessions
pub mod Held
pub mod Serves
pub mod Runs
pub mod Clients
use stingdb.Base.{
  ℕ, List, [], ◌∷◌, ◌++◌, Bool, true, false, Option, none, some, if◌then◌else◌, length, get_elem?,
  set, ◌≤◌, ◌≡◌,
}
use stingdb.Base.Effect.{Eff, Outcome, done, thrown, fault, bind, within}
use stingdb.Storage.Disk.{Device}
use stingdb.Execution.Instance.{Instance}
use stingdb.Network.Connection.Answer.{Texts}
use stingdb.Network.Session.{
  Connection, Awaited, reading, writing, over, max_length, start, on_write, on_read,
}

-- `accepting` says that an `async_accept` is to call back; connections are numbered in the order of
-- acceptance.
pub record Reactor (D : Type 0) : Type 0 where
  pub thread_pool_size : ℕ
  pub accepting : Bool
  pub connections : List Connection
  pub instance_ : Instance D

unfoldable pub do_accept : {D : Type 0} → Reactor D → Reactor D
do_accept r = record r { accepting = true }

-- The body of the constructor, where the acceptor was made and takes its option; the start in src/main.cpp has
-- the exceptions of these before it.
unfoldable pub create_server : {D : Type 0} → ℕ → Instance D → Reactor D
unfolding do_accept
create_server thread_pool_size s = do_accept (record {
  thread_pool_size = thread_pool_size;
  accepting = false;
  connections = [];
  instance_ = s;
})

-- What the library calls back with: each with its error code.
pub data Event : Type 0 where
  accepted : Bool → Event
  was_read : ℕ → Bool → List ℕ → Event
  was_written : ℕ → Bool → Event

unfoldable pub on_accept : {D : Type 0} → Bool → Reactor D → Reactor D
unfolding do_accept
on_accept failed r = do_accept (
    if failed
    then record r { accepting = false }
    else record r { accepting = false; connections = r.connections ++ start ∷ [] })

-- The operation that the event ends was begun.
abbrev pub IsDue : {D : Type 0} → Event → Reactor D → Type 0
IsDue (accepted failed) r = r.accepting ≡ true
IsDue (was_read i failed bytes) r =
    (c : Connection) × (get_elem? r.connections i ≡ some c)
    × (c.awaited ≡ reading)
    × (length bytes ≤ max_length)
IsDue (was_written i failed) r =
    (c : Connection) × (len : ℕ) × (get_elem? r.connections i ≡ some c) × (c.awaited ≡ writing len)

module _ {D : Type 0} where
  abbrev pub put_connection : ℕ → List ℕ × Connection → Reactor D → Outcome (Reactor D) (List ℕ)
  put_connection i (sent, c) r = done sent (record r { connections = set r.connections i c })

  -- The awaited write of connection `i`; there is no other handler to call.
  abbrev pub end_write : ℕ → Bool → Connection → Reactor D → Outcome (Reactor D) (List ℕ)
  end_write i failed c r = elim c.awaited [
    | writing len ↦ put_connection i (on_write failed len c) r
    | _ ↦ fault
  ]

module _ {D : Type 0} (texts : Texts) (asserts : Bool) (io : Device D) (fuel : ℕ) where
  abbrev pub end_read : ℕ → Bool → List ℕ → Connection → Eff (Reactor D) (List ℕ)
  end_read i failed bytes c r =
      bind
        (within r (λ s. record r { instance_ = s })
          (on_read texts asserts io fuel failed bytes c r.instance_))
        λ c' r'. put_connection i ([], c') r'

  -- The handler of an event, with what a client has got by it.
  unfoldable pub react : Event → Eff (Reactor D) (List ℕ)
  unfolding on_accept on_write
  react (accepted failed) r = done [] (on_accept failed r)
  react (was_read i failed bytes) r = elim (get_elem? r.connections i) [
    | none ↦ fault
    | some c ↦ end_read i failed bytes c r
  ]
  react (was_written i failed) r = elim (get_elem? r.connections i) [
    | none ↦ fault
    | some c ↦ end_write i failed c r
  ]

  -- A run of the event loop: each event was due and its handler returned.
  pub data Run : Reactor D → List Event → List (List ℕ) → Reactor D → Type 0 where
    here : (r : Reactor D) → Run r [] [] r
    next :
        {r t u : Reactor D} {e : Event} {events : List Event} {sent : List ℕ} {more : List (List ℕ)}
        → IsDue e r
        → react e r ≡ done sent t
        → Run t events more u
        → Run r (e ∷ events) (sent ∷ more) u
