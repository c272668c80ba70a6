-- ===== src/Network/Session.antt =====
-- src/network/connection.h: a connection between its reads and its writes. The socket is the library's:
-- it takes one operation at a time and calls back with an error or with what it did. A handler runs
-- without interruption.
use stingdb.Base.{ℕ, List, [], min, Bool, true, false, if◌then◌else◌, length, take}
use stingdb.Base.Bytes.{Bytes, store, load}
use stingdb.Base.Effect.{Eff, done, bind}
use stingdb.Storage.Disk.{Device}
use stingdb.Execution.Instance.{Instance}
use stingdb.Network.Connection.{handle_query}
use stingdb.Network.Connection.Answer.{Texts, response_text}

abbrev pub max_length : ℕ
max_length = 8192

-- The operation that will call back: `async_read_some` into the whole of `data_`, or `async_write` of its
-- first bytes. After `over` no handler holds the connection, and it is destroyed.
pub data Awaited : Type 0 where
  reading over : Awaited
  writing : ℕ → Awaited

-- `buffer` is `data_`, and `is_open` says that `socket_` was not closed.
pub record Connection : Type 0 where
  pub buffer : Bytes
  pub is_open : Bool
  pub awaited : Awaited

unfoldable pub do_read : Connection → Connection
do_read c = record c { awaited = reading }

-- The constructor, and `Start`.
unfoldable pub start : Connection
unfolding do_read
start = do_read (record { buffer = λ i. 0; is_open = true; awaited = over })

unfoldable pub do_write_answer : List ℕ → Connection → Connection
do_write_answer response c =
    let len = min (length response) max_length in
    record c { buffer = store c.buffer 0 (take len response); awaited = writing len }

-- The handler of a write; `failed` is its error code. What the socket sent is in the buffer.
unfoldable pub on_write : Bool → ℕ → Connection → List ℕ × Connection
unfolding do_read
on_write failed len c =
    if failed
    then ([], record c { is_open = false; awaited = over })
    else (load c.buffer 0 len, do_read c)

module _ {D : Type 0} (texts : Texts) (asserts : Bool) (io : Device D) (fuel : ℕ) where
  -- The handler of a read, of which the socket put `bytes` into the buffer.
  unfoldable pub on_read : Bool → List ℕ → Connection → Eff (Instance D) Connection
  unfolding do_write_answer
  on_read failed bytes c s =
      let filled = record c { buffer = store c.buffer 0 bytes } in
      let answer =
        bind (handle_query asserts io fuel (load filled.buffer 0 (length bytes)) s)
          λ response t. done (do_write_answer (response_text texts response) filled) t in
      if failed then done (record filled { awaited = over }) s else answer
