-- ===== src/Network/Reactor/Serves.antt =====
-- The event loop beside the sessions that its clients see.
use stingdb.Base.{ℕ, ◌+◌, ◌^◌, ◌<◌, ◌≡◌, refl, Bool, true, false, List, [], ◌∷◌, ◌++◌, set}
use stingdb.Base.Bytes.{store, load-store_self}
use stingdb.Base.Effect.{done}
use stingdb.Storage.Disk.{Device}
use stingdb.Network.Connection.Answer.{Texts, response_text}
use stingdb.Network.Session.{
  Connection, reading, over, start, on_write, on_read, do_write_answer, do_read,
}
use stingdb.Execution.Instance.{Instance}
use stingdb.Network.Connection.Server.{Server, reply, statement_of}
use stingdb.Network.Connection.Served.{handle_query-reply}
use stingdb.Network.Connection.Shown.{Shows}
use stingdb.Network.Reactor.{
  Reactor, Event, accepted, was_read, was_written, IsDue, react, do_accept, on_accept,
}
use stingdb.Network.Reactor.Sessions.{Sessions, waiting, ended, answering, serve}
use stingdb.Network.Reactor.Held.{
  Holds, AreHeld, AreHeld-get_elem?, AreHeld-set, AreHeld-append, do_write_answer-Holds,
  Holds-reading, Holds-writing,
}

pub record Serves {D : Type 0} (texts : Texts) (a : Sessions) (r : Reactor D) : Type 0 where
  pub accepts : r.accepting ≡ true
  pub shows : Shows a.server r.instance_
  pub held : AreHeld texts a.sessions r.connections

module _ {D : Type 0} (texts : Texts) (asserts : Bool) (io : Device D) (fuel : ℕ) where
  -- A connection whose read failed gives up.
  on_read_failed :
      (bytes : List ℕ) (c : Connection) (s : Instance D)
      → on_read texts asserts io fuel true bytes c s
        ≡ done (record c { buffer = store c.buffer 0 bytes; awaited = over }) s
  unfolding on_read
  on_read_failed bytes c s = refl

  on_read-serves :
      (bytes : List ℕ) (c : Connection) (server : Server) (s : Instance D)
      → c.is_open ≡ true
      → Shows server s
      → server.next_txn + 1 < 2 ^ 64
      → (c' : Connection) × (t : Instance D) × (on_read texts asserts io fuel false bytes c s
          ≡ done c' t)
        × Holds texts (answering (reply (statement_of bytes) server).0) c'
        × Shows (reply (statement_of bytes) server).1 t
  unfolding on_read
  on_read-serves bytes c server s still shows small =
      let (t, e, shows') = handle_query-reply asserts io fuel bytes server s shows small in
      let filled = record c { buffer = store c.buffer 0 bytes } in
      (
        do_write_answer (response_text texts (reply (statement_of bytes) server).0) filled,
        t,
        rw (load-store_self c.buffer 0 bytes, e) refl,
        do_write_answer-Holds texts (reply (statement_of bytes) server).0 filled still,
        shows',
      )

  -- A handler that was due returns, with what the sessions say.
  pub react-serves :
      (e : Event) (a : Sessions) (r : Reactor D)
      → Serves texts a r
      → IsDue e r
      → a.server.next_txn + 1 < 2 ^ 64
      → (t : Reactor D) × (react texts asserts io fuel e r ≡ done (serve texts e a).0 t)
        × Serves texts (serve texts e a).1 t
  unfolding react serve on_accept do_accept on_write do_read start
  react-serves (accepted true) a r h due small = (
    record r { accepting = true },
    refl,
    record { accepts = refl; shows = h.shows; held = h.held },
  )
  react-serves (accepted false) a r h due small = (
    record r { accepting = true; connections = r.connections ++ start ∷ [] },
    refl,
    record {
      accepts = refl;
      shows = h.shows;
      held = AreHeld-append texts a.sessions r.connections waiting start (h.held) (refl, refl);
    },
  )
  react-serves (was_read i true bytes) a r h (c, at, is_reading, fits) small = (
    record r {
      connections =
          set r.connections i (record c { buffer = store c.buffer 0 bytes; awaited = over });
    },
    rw (at, react, on_read_failed bytes c r.instance_) refl,
    record {
      accepts = h.accepts;
      shows = h.shows;
      held = AreHeld-set texts a.sessions r.connections i ended _ (h.held) refl;
    },
  )
  react-serves (was_read i false bytes) a r h (c, at, is_reading, fits) small =
      let (session, _, holds) = AreHeld-get_elem? texts a.sessions r.connections i c (h.held) at in
      let (c', s, e, answers, shows) =
        on_read-serves bytes c a.server r.instance_
          (Holds-reading texts session c holds is_reading).1 (h.shows) small in
      (
        record r { connections = set r.connections i c'; instance_ = s },
        rw (at, react, e) refl,
        record {
          accepts = h.accepts;
          shows = shows;
          held =
              AreHeld-set texts a.sessions r.connections i
                (answering (reply (statement_of bytes) a.server).0) c' (h.held) answers;
        },
      )
  react-serves (was_written i true) a r h (c, len, at, is_writing) small =
      let (session, found, holds) =
        AreHeld-get_elem? texts a.sessions r.connections i c (h.held) at in
      let (response, is_answering, same, still) =
        Holds-writing texts session c len holds is_writing in
      (
        record r {
          connections = set r.connections i (record c { is_open = false; awaited = over });
        },
        rw (at, react, is_writing, found, serve, is_answering) refl,
        rw (found, serve, is_answering)
            (record {
              accepts = h.accepts;
              shows = h.shows;
              held = AreHeld-set texts a.sessions r.connections i ended _ (h.held) refl;
            }),
      )
  react-serves (was_written i false) a r h (c, len, at, is_writing) small =
      let (session, found, holds) =
        AreHeld-get_elem? texts a.sessions r.connections i c (h.held) at in
      let (response, is_answering, same, still) =
        Holds-writing texts session c len holds is_writing in
      (
        record r { connections = set r.connections i (record c { awaited = reading }) },
        rw (at, react, is_writing, found, serve, is_answering, same) refl,
        rw (found, serve, is_answering)
            (record {
              accepts = h.accepts;
              shows = h.shows;
              held = AreHeld-set texts a.sessions r.connections i waiting _ (h.held) (refl, still);
            }),
      )
