-- ===== src/Network/Reactor/Sessions.antt =====
-- What the clients of a server see: one server that answers the queries of all of them, and a client each
-- that waits to ask, is answered, or is gone.
use stingdb.Base.{
  ℕ, List, [], ◌∷◌, ◌++◌, Bool, none, some, if◌then◌else◌, get_elem?, set, take, length, ◌≤◌, ◌≡◌,
}
use stingdb.Network.Connection.{Response}
use stingdb.Network.Connection.Server.{Server, new_server, reply, statement_of}
use stingdb.Network.Connection.Answer.{Texts, response_text}
use stingdb.Network.Session.{max_length}
use stingdb.Network.Reactor.{Event, accepted, was_read, was_written}

pub data Session : Type 0 where
  waiting ended : Session
  answering : Response → Session

pub record Sessions : Type 0 where
  pub server : Server
  pub sessions : List Session

abbrev pub no_sessions : Sessions
no_sessions = record { server = new_server; sessions = [] }

-- The text of an answer as far as a connection takes it.
abbrev pub sent_text : Texts → Response → List ℕ
sent_text texts response = take max_length (response_text texts response)

-- What an answered client gets.
abbrev pub delivered : Texts → Bool → Session → List ℕ × Session
delivered texts failed (answering response) =
    if failed then ([], ended) else (sent_text texts response, waiting)
delivered texts failed s = ([], s)

unfoldable pub serve : Texts → Event → Sessions → List ℕ × Sessions
serve texts (accepted failed) s =
    ([], if failed then s else record s { sessions = s.sessions ++ waiting ∷ [] })
serve texts (was_read i failed query) s =
    let (response, after) = reply (statement_of query) s.server in
    (
      [],
      if failed
          then record s { sessions = set s.sessions i ended }
          else record { server = after; sessions = set s.sessions i (answering response) },
    )
serve texts (was_written i failed) s = elim (get_elem? s.sessions i) [
  | none ↦ ([], s)
  | some session ↦
      let (text, session') = delivered texts failed session in
      (text, record s { sessions = set s.sessions i session' })
]

unfoldable pub serve_all : Texts → List Event → Sessions → List (List ℕ) × Sessions
unfolding serve
serve_all texts [] s = ([], s)
serve_all texts (e ∷ events) s =
    let (text, t) = serve texts e s in let (more, u) = serve_all texts events t in (text ∷ more, u)

-- A client may do what the event reports.
abbrev pub IsTurn : Event → Sessions → Type 0
IsTurn (accepted failed) s = Unit
IsTurn (was_read i failed query) s =
    (get_elem? s.sessions i ≡ some waiting) × (length query ≤ max_length)
IsTurn (was_written i failed) s =
    (response : Response) × (get_elem? s.sessions i ≡ some (answering response))

abbrev pub AreTurns : Texts → List Event → Sessions → Type 0
AreTurns texts [] s = Unit
AreTurns texts (e ∷ events) s = IsTurn e s × AreTurns texts events (serve texts e s).1
