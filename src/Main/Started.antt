-- ===== src/Main/Started.antt =====
-- A server from its start.
use native.Mathlib.Decide.{ℕ_discrete}
use stingdb.Base.{
  ℕ, zero, suc, ◌+◌, ◌^◌, ◌<◌, ◌≡◌, ◌≢◌, refl, sym, ◌∙◌, subst, ap, ne→==, ◌⊎◌, inl, inr, Bool,
  true, false, List, [], ◌∷◌, ◌++◌, none, some, length, arith, Bool-cases, Option-cases,
}
use stingdb.Base.Effect.{Error, Outcome, done, thrown, fault, open_failed, ring_failed}
use stingdb.Storage.Disk.{Device, DiskManager}
use stingdb.Storage.Disk.Open.{Kernel, create_disk, open_db, init_ring}
use stingdb.Execution.Instance.{start}
use stingdb.Network.Connection.Answer.{Texts}
use stingdb.Network.Reactor.{Reactor, Event, Run, create_server}
use stingdb.Network.Reactor.Sessions.{serve_all, no_sessions, AreTurns}
use stingdb.Network.Reactor.Runs.{AreTurns-served}
use stingdb.Main.Steps.{
  Step, new_disk_manager, new_instance, new_io_context, set_reuse_address, start_accept, new_pool,
  new_acceptor, new_thread, Host, of_step, started, try_all, Passed, IsRefused, try_all-Passed,
}
use stingdb.Main.{
  pool_size, Process, running, exited, terminated, threads, server_steps, make_server, stop,
  run_server, main,
}

module _ {K D : Type 0} (kernel : Kernel K D) (k : K) where
  open kernel use {open_file, queue_init}

  -- A file, with O_DIRECT or else without it.
  abbrev Opens : ℕ → K → Type 0
  Opens fd k' =
      ((open_file k true).0 ≡ some fd) × ((open_file k true).1 ≡ k')
      ⊎ ((open_file k true).0 ≡ none)
        × ((open_file (open_file k true).1 false).0 ≡ some fd)
        × ((open_file (open_file k true).1 false).1 ≡ k')

  -- What the constructor comes to.
  data Starts : Outcome K (DiskManager D) → Type 0 where
    no_file :
        (k' : K)
        → (open_file k true).0 ≡ none
        → (open_file (open_file k true).1 false).0 ≡ none
        → Starts (thrown open_failed k')
    no_ring :
        (fd : ℕ) (k' k'' : K)
        → Opens fd k'
        → (queue_init k' fd 256).0 ≡ none
        → Starts (thrown ring_failed k'')
    starts :
        (fd : ℕ) (k' k'' : K) (d : D)
        → Opens fd k'
        → (queue_init k' fd 256).0 ≡ some d
        → Starts (done (record { device = d; next_page_id = 0 }) k'')

  init_ring-Starts : (fd : ℕ) (k' : K) → Opens fd k' → Starts (init_ring kernel fd k')
  unfolding init_ring
  init_ring-Starts fd k' opens = elim (Option-cases (queue_init k' fd 256).0) [
    | inl none_made ↦
        rw (none_made, init_ring) (no_ring fd k' (queue_init k' fd 256).1 opens none_made)
    | inr (d, e) ↦ rw (e, init_ring) (starts fd k' (queue_init k' fd 256).1 d opens e)
  ]

  create_disk-Starts : Starts (create_disk kernel k)
  unfolding create_disk open_db
  create_disk-Starts = elim (Option-cases (open_file k true).0) [
    | inr (fd, e) ↦ rw (e, open_db) (init_ring-Starts fd (open_file k true).1 (inl (e, refl)))
    | inl not_direct ↦ elim (Option-cases (open_file (open_file k true).1 false).0) [
      | inr (fd, e) ↦
          rw (not_direct, open_db, e)
            (init_ring-Starts fd (open_file (open_file k true).1 false).1
              (inr (not_direct, e, refl)))
      | inl not_at_all ↦ rw (not_direct, open_db, not_at_all) (no_file _ not_direct not_at_all)
    ]
  ]

  next_of : Outcome K (DiskManager D) → ℕ
  next_of (done disk k') = disk.next_page_id
  next_of (thrown e k') = 0
  next_of fault = 0

  next_of-Starts : (o : Outcome K (DiskManager D)) → Starts o → next_of o ≡ 0
  unfolding next_of
  next_of-Starts o (no_file k' a b) = refl
  next_of-Starts o (no_ring fd k' k'' a b) = refl
  next_of-Starts o (starts fd k' k'' d a b) = refl

  next_of-create_disk :
      (disk : DiskManager D) (k' : K) → create_disk kernel k ≡ done disk k' → disk.next_page_id ≡ 0
  unfolding next_of
  next_of-create_disk disk k' e =
      sym (ap next_of e) ∙ next_of-Starts (create_disk kernel k) create_disk-Starts

  -- Neither way to open the file gave a descriptor, or the ring was not made for one that was given.
  abbrev NoDisk : Error → Type 0
  NoDisk e =
      (e ≡ open_failed)
        × ((open_file k true).0 ≡ none)
        × ((open_file (open_file k true).1 false).0 ≡ none)
      ⊎ (e ≡ ring_failed) × ((fd : ℕ) × (k' : K) × Opens fd k' × ((queue_init k' fd 256).0 ≡ none))

-- Every step is the start of a thread.
abbrev is_thread : Step → Bool
is_thread (new_thread i) = true
is_thread _ = false

AreThreads : List Step → Type 0
AreThreads [] = Unit {0}
AreThreads (step ∷ steps) = (is_thread step ≡ true) × AreThreads steps

threads-AreThreads : (n i : ℕ) → AreThreads (threads n i)
unfolding AreThreads
threads-AreThreads zero i = tt
threads-AreThreads (suc n) i = (refl, threads-AreThreads n (i + 1))

AreThreads-among :
    (before : List Step) (step : Step) (behind : List Step)
    → AreThreads (before ++ step ∷ behind)
    → is_thread step ≡ true
unfolding AreThreads
AreThreads-among [] step behind h = h.0
AreThreads-among (b ∷ before) step behind h = AreThreads-among before step behind h.1

thread_number : (step : Step) → is_thread step ≡ true → (i : ℕ) × (step ≡ new_thread i)
thread_number (new_thread i) h = (i, refl)
thread_number new_disk_manager h = absurd (cc)
thread_number new_instance h = absurd (cc)
thread_number new_io_context h = absurd (cc)
thread_number set_reuse_address h = absurd (cc)
thread_number start_accept h = absurd (cc)
thread_number (new_pool n) h = absurd (cc)
thread_number (new_acceptor n) h = absurd (cc)

-- The steps that a server is to take, in this order, before its threads.
abbrev pub wanted : List Step
wanted =
    new_pool 4096
    ∷ new_instance
    ∷ new_io_context
    ∷ new_acceptor 5432
    ∷ set_reuse_address
    ∷ start_accept
    ∷ []

-- The starts of `n` threads.
abbrev pub thread_starts : ℕ → List Step
thread_starts zero = []
thread_starts (suc n) = thread_starts n ++ new_thread n ∷ []

threads_last : (n i : ℕ) → threads (suc n) i ≡ threads n i ++ new_thread (i + n) ∷ []
threads_last zero i = ap (λ j. new_thread j ∷ []) (omega arith)
threads_last (suc n) i =
    let next : i + 1 + n ≡ i + suc n = omega arith in
    ap (λ l. new_thread i ∷ l)
      (threads_last n (i + 1) ∙ ap (λ j. threads n (i + 1) ++ new_thread j ∷ []) next)

threads-thread_starts : (n : ℕ) → threads n 0 ≡ thread_starts n
threads-thread_starts zero = refl
threads-thread_starts (suc n) =
    let first : 0 + n ≡ n = omega arith in
    threads_last n 0
    ∙ ap (λ l. l ++ new_thread (0 + n) ∷ []) (threads-thread_starts n)
    ∙ ap (λ j. thread_starts n ++ new_thread j ∷ []) first

module _ {K D : Type 0} (kernel : Kernel K D) (host : Host K) (k : K) (hardware_threads : ℕ) where
  open host use {attempt}

  abbrev with_memory : K
  with_memory = (attempt k new_disk_manager).1

  -- The way to `Run`, from which nothing was thrown.
  pub record IsMade (disk : DiskManager D) (opened made : K) : Type 0 where
    pub allocated : (attempt k new_disk_manager).0 ≡ true
    pub opens : create_disk kernel with_memory ≡ done disk opened
    pub passed : Passed host wanted opened made

  make_server-IsMade :
      (disk : DiskManager D) (opened made : K)
      → IsMade disk opened made
      → try_all host server_steps opened ≡ started tt made
      → make_server kernel host hardware_threads k
        ≡ started (create_server (pool_size hardware_threads) (start disk)) made
  unfolding make_server start create_server try_all
  make_server-IsMade disk opened made m e = rw (m.allocated, try_all, m.opens, e, make_server) refl

  module _ (texts : Texts) (asserts : Bool) (io : Device D) (fuel : ℕ) (events : List Event)
      (small : 1 + length events < 2 ^ 64) (turns : AreTurns texts events no_sessions) where
    -- What becomes of the process, and after what.
    pub data Serving : Process D → Type 0 where
      no_memory : (attempt k new_disk_manager).0 ≡ false → Serving (exited 1)
      no_disk :
          (attempt k new_disk_manager).0 ≡ true
          → (e : Error) → NoDisk kernel with_memory e
          → Serving (exited 1)
      no_server :
          (disk : DiskManager D) (opened : K) (step : Step)
          → (attempt k new_disk_manager).0 ≡ true
          → create_disk kernel with_memory ≡ done disk opened
          → IsRefused host wanted opened step
          → Serving (exited 1)
      no_thread :
          (disk : DiskManager D) (opened made : K)
          → IsMade disk opened made
          → IsRefused host (thread_starts (pool_size hardware_threads)) made (new_thread 0)
          → Serving (exited 1)
      no_further_thread :
          (disk : DiskManager D) (opened made : K) (i : ℕ)
          → IsMade disk opened made
          → i ≢ 0
          → IsRefused host (thread_starts (pool_size hardware_threads)) made (new_thread i)
          → Serving terminated
      serves :
          (disk : DiskManager D) (opened made k' : K)
          → IsMade disk opened made
          → Passed host (thread_starts (pool_size hardware_threads)) made k'
          → 0 < pool_size hardware_threads
          → (u : Reactor D)
          → Run texts asserts io fuel
              (create_server (pool_size hardware_threads) (start disk))
              events
              (serve_all texts events no_sessions).0
              u
          → Serving (running (create_server (pool_size hardware_threads) (start disk)))

    abbrev same :
        threads (pool_size hardware_threads) 0 ≡ thread_starts (pool_size hardware_threads)
    same = threads-thread_starts (pool_size hardware_threads)

    stop-Serving :
        (disk : DiskManager D) (opened made : K) (step : Step)
        → IsMade disk opened made
        → IsRefused host (threads (pool_size hardware_threads) 0) made step
        → Serving (stop kernel host (of_step step))
    unfolding stop
    stop-Serving disk opened made step m r =
        let all = subst AreThreads r.among (threads-AreThreads (pool_size hardware_threads) 0) in
        let (i, is) = thread_number step (AreThreads-among r.before step r.behind all) in
        let r' =
          subst (λ x. IsRefused host (thread_starts (pool_size hardware_threads)) made x) is
            (subst (λ l. IsRefused host l made step) same r) in
        rw is (elim (ℕ_discrete i 0) [
          | yes e ↦ rw e (no_thread disk opened made m (rw e at r'))
          | no ne ↦ rw (ne→== i 0 ne) (no_further_thread disk opened made i m ne r')
        ])

    run_server-Serving :
        (disk : DiskManager D) (opened made : K)
        → IsMade disk opened made
        → Serving
            (run_server kernel host (create_server (pool_size hardware_threads) (start disk)) made)
    unfolding run_server create_server start
    run_server-Serving disk opened made m =
        elim (try_all-Passed host (threads (pool_size hardware_threads) 0) made) [
          | inl (k', e, passed) ↦
              let (u, run) =
                AreTurns-served texts asserts io fuel (pool_size hardware_threads) 4095 disk events
                  (omega (arith, next_of-create_disk kernel with_memory disk opened m.opens)) small
                  turns in
              rw (e, run_server)
                (serves disk opened made k' m (subst (λ l. Passed host l made k') same passed)
                  some_thread u run)
          | inr (step, k', e, refused) ↦
              rw (e, run_server) (stop-Serving disk opened made step m refused)
        ]
      where
        some_thread : 0 < pool_size hardware_threads
        some_thread = ground arith

    opened-Serving :
        (attempt k new_disk_manager).0 ≡ true
        → (o : Outcome K (DiskManager D)) → create_disk kernel with_memory ≡ o
        → Starts kernel with_memory o
        → Serving (main kernel host hardware_threads k)
    unfolding main make_server
    opened-Serving ok o e (no_file k' a b) =
        rw (ok, try_all, e, make_server, main) (no_disk ok open_failed (inl (refl, a, b)))
    opened-Serving ok o e (no_ring fd k' k'' opens b) =
        rw (ok, try_all, e, make_server, main)
          (no_disk ok ring_failed (inr (refl, (fd, k', opens, b))))
    opened-Serving ok o e (starts fd k' opened d opens b) =
        let disk : DiskManager D = record { device = d; next_page_id = 0 } in
        elim (try_all-Passed host server_steps opened) [
          | inl (made, e2, passed) ↦
              let m : IsMade disk opened made = record {
                allocated = ok;
                opens = e;
                passed = passed;
              } in
              rw (make_server-IsMade disk opened made m e2, main)
                (run_server-Serving disk opened made m)
          | inr (step, k3, e2, r) ↦
              rw (ok, try_all, e, e2, make_server, main) (no_server disk opened step ok e r)
        ]

    -- The process ends with status 1 only after one of these failed, and nothing before it: the memory of
    -- the disk manager; both ways to open the file; the ring; the memory of the pool or of the instance;
    -- the constructor of the `io_context`; the acceptor of port 5432, its option or its first accept; the
    -- first thread. It ends by `std::terminate` only after the start of a further thread failed.
    -- Otherwise all of these passed and it runs the event loop on at least one thread; then the loop can be
    -- run with any clients that ask only while they wait, in at most 8192 bytes, and any order of their
    -- events, and sends what an abstract server sends. This holds for any number of hardware threads, less
    -- than 2 ^ 64 - 1 events, and every kernel, host, device and fuel.
    pub main-Serving : Serving (main kernel host hardware_threads k)
    unfolding main make_server
    main-Serving = elim (Bool-cases (attempt k new_disk_manager).0) [
      | inr bad ↦ rw (bad, try_all, make_server, main) (no_memory bad)
      | inl ok ↦
          opened-Serving ok (create_disk kernel with_memory) refl
            (create_disk-Starts kernel with_memory)
    ]
