-- ===== src/Tests/Startup.antt =====
-- A start on a file system that does not support O_DIRECT, over the device in memory.
use stingdb.Base.{ℕ, ◌+◌, ◌≡◌, ◌==◌, refl, Bool, true, false, none, some, arith, if◌then◌else◌}
use stingdb.Base.Bytes.{zeros}
use stingdb.Storage.Disk.Open.{Kernel, create_disk, open_db, init_ring}
use stingdb.Main.Steps.{Step, new_acceptor, new_thread, Host, try_all}
use stingdb.Main.{main, make_server, run_server, stop, exited, terminated}
use stingdb.Execution.Instance.{start}
use stingdb.Network.Reactor.{create_server}
use stingdb.Main.Started.{Serving, main-Serving}
use stingdb.Tests.Device.{Drive, drive}
use stingdb.Tests.Loop.{plain, two_clients, two_clients-AreTurns}

-- The state counts the files that were opened.
abbrev no_direct : Kernel ℕ Drive
no_direct = record {
  open_file = λ k direct. if direct then (none, k) else (some 3, k + 1);
  queue_init = λ k fd entries. (some (record { pending = 0; file = zeros }), k);
}

-- A host on which every step returns.
abbrev able : Host ℕ
able = record { attempt = λ k step. (true, k) }

main-Serving_example :
    Serving no_direct able 0 0 plain true drive 300 two_clients
      (omega arith)
      two_clients-AreTurns
      (main no_direct able 0 0)
main-Serving_example =
    main-Serving no_direct able 0 0 plain true drive 300 two_clients (omega arith)
      two_clients-AreTurns

-- A host on which the port is in use.
abbrev port_in_use : Host ℕ
port_in_use = record { attempt = λ k step. (not_acceptor step, k) }
  where
    not_acceptor : Step → Bool
    not_acceptor (new_acceptor port) = false
    not_acceptor _ = true

port_in_use-exits : main no_direct port_in_use 0 0 ≡ exited 1
unfolding main make_server create_disk open_db init_ring try_all
port_in_use-exits = refl

-- A host that has no second thread.
abbrev one_thread : Host ℕ
one_thread = record { attempt = λ k step. (not_second step, k) }
  where
    not_second : Step → Bool
    not_second (new_thread i) = i == 0
    not_second _ = true

one_thread-terminates : main no_direct one_thread 0 0 ≡ terminated
unfolding main make_server create_disk open_db init_ring try_all run_server stop create_server start
one_thread-terminates = refl
