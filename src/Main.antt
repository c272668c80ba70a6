-- ===== src/Main.antt =====
-- src/main.cpp and the start in src/network/server.h. What is reported on the console is left out.
pub mod Steps
pub mod Started
use stingdb.Base.{ℕ, zero, suc, ◌+◌, List, [], ◌∷◌, ltb, ◌==◌, if◌then◌else◌}
use stingdb.Storage.Disk.{DiskManager}
use stingdb.Storage.Disk.Open.{Kernel, create_disk}
use stingdb.Execution.Instance.{start}
use stingdb.Network.Reactor.{Reactor, create_server}
use stingdb.Main.Steps.{
  Step, new_disk_manager, new_pool, new_instance, new_io_context, new_acceptor, set_reuse_address,
  start_accept, new_thread, Host, Cause, of_disk, of_step, Start, started, failed, crashed,
  then_start, from_disk, try_all,
}

-- The process runs the event loop, or has ended with a status, or by `std::terminate`. `aborted` is
-- undefined behaviour.
pub data Process (D : Type 0) : Type 0 where
  running : Reactor D → Process D
  exited : ℕ → Process D
  terminated aborted : Process D

-- What `hardware_concurrency` says is 0 where it is not known.
abbrev pub pool_size : ℕ → ℕ
pool_size hardware_threads = if ltb 1 hardware_threads then hardware_threads else 4

-- The threads of `Run` from number `i` on.
abbrev pub threads : ℕ → ℕ → List Step
threads zero i = []
threads (suc n) i = new_thread i ∷ threads n (i + 1)

-- What throws between the disk manager and the server, in this order.
abbrev pub server_steps : List Step
server_steps =
    new_pool 4096
    ∷ new_instance
    ∷ new_io_context
    ∷ new_acceptor 5432
    ∷ set_reuse_address
    ∷ start_accept
    ∷ []

module _ {K D : Type 0} (kernel : Kernel K D) (host : Host K) where
  -- The body of the `try`, up to `server.Run()`.
  unfoldable pub make_server : ℕ → K → Start K (Reactor D)
  unfolding create_disk start create_server try_all
  make_server hardware_threads k = then_start (try_all host (new_disk_manager ∷ []) k) λ _ k1.
      then_start (from_disk (create_disk kernel k1)) λ disk k2.
        then_start (try_all host server_steps k2)
          λ _ k3. started (create_server (pool_size hardware_threads) (start disk)) k3

  -- An exception destroys the vector of the threads, and a thread that was started and not joined ends
  -- the process; only for the first thread it reaches `main`.
  unfoldable pub stop : Cause → Process D
  stop (of_step (new_thread i)) = if i == 0 then exited 1 else terminated
  stop c = exited 1

  -- `Run`, which does not return.
  unfoldable pub run_server : Reactor D → K → Process D
  unfolding stop try_all
  run_server server k = elim (try_all host (threads server.thread_pool_size 0) k) [
    | started _ k' ↦ running server
    | failed c k' ↦ stop c
    | crashed ↦ aborted
  ]

  unfoldable pub main : ℕ → K → Process D
  unfolding make_server run_server
  main hardware_threads k = elim (make_server hardware_threads k) [
    | started server k' ↦ run_server server k'
    | failed c k' ↦ exited 1
    | crashed ↦ aborted
  ]
