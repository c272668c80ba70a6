-- ===== src/Storage/Disk/Serves.antt =====
-- What the disk manager relies on of the kernel, and what its loops then do.
use stingdb.Base.{
  ℕ, zero, suc, ◌+◌, ◌-◌, ◌≤◌, ◌<◌, ◌≡◌, refl, ◌∙◌, ◌⊎◌, inl, inr, true, false, List, some, ltb,
  leb, ◌&&◌, ◌==◌, if◌then◌else◌, length, get_or, arith, Bool-cases, ==→eq, ==→ne,
}
use stingdb.Base.Bytes.{Bytes}
use stingdb.Base.Effect.{Ensures, Ensures-bind, Ensures-weaken}
use stingdb.Storage.Disk.{Device, DiskManager, reap, retrieve_async_completions, await_completion}

-- The kernel completes every write that it accepted: `backlog` counts the completions that were not
-- yet taken from the ring, and `delay` bounds the polls until the next one shows. Both stay below
-- `fuel`, as the ring is of fixed size. A read gives at most the bytes that were asked for.
pub record Serves {D : Type 0} (io : Device D) (fuel : ℕ) : Type 0 where
  pub backlog : D → ℕ
  pub delay : D → ℕ
  pub backlog_fits : (d : D) → backlog d < fuel
  pub delay_fits : (d : D) → delay d < fuel
  pub submit_backlog :
      (d : D) (off : ℕ) (b : Bytes) (u : ℕ)
      → io.get_sqe d ≡ true
      → backlog (io.submit d off b u) ≡ backlog d + 1
  pub peek_backlog : (d : D) → backlog (io.peek_cqe d).1 ≡ backlog d
  pub peek_found : (d : D) → (io.peek_cqe d).0 ≡ true → 0 < backlog d
  pub peek_empty :
      (d : D) → (io.peek_cqe d).0 ≡ false → (backlog d ≡ 0) ⊎ (delay (io.peek_cqe d).1 < delay d)
  pub advance_backlog : (d : D) → 0 < backlog d → backlog (io.cq_advance d) + 1 ≡ backlog d
  pub pread_length : (d : D) (off n : ℕ) (bs : List ℕ) → io.pread d off n ≡ some bs → length bs ≤ n

-- What the file holds: `settled d` is its contents once every accepted write has landed, with zeros
-- behind its end. A read that no write is in flight with gives these bytes.
pub record Stores {D : Type 0} (io : Device D) (fuel : ℕ) (serves : Serves io fuel) : Type 0 where
  pub settled : D → Bytes
  pub submit_settled :
      (d : D) (off : ℕ) (b : Bytes) (u i : ℕ)
      → io.get_sqe d ≡ true
      → settled (io.submit d off b u) i
        ≡ (if leb off i && ltb i (off + 8192) then b (i - off) else settled d i)
  pub peek_settled : (d : D) (i : ℕ) → settled (io.peek_cqe d).1 i ≡ settled d i
  pub advance_settled : (d : D) (i : ℕ) → settled (io.cq_advance d) i ≡ settled d i
  pub pread_settled :
      (d : D) (off n i : ℕ) (bs : List ℕ)
      → serves.backlog d ≡ 0
      → io.pread d off n ≡ some bs
      → i < n
      → get_or bs i 0 ≡ settled d (off + i)

-- What the polls of a loop keep.
pub record Kept {D : Type 0} (io : Device D) (K : D → Type 0) : Type 0 where
  pub peek_kept : (d : D) → K d → K (io.peek_cqe d).1
  pub advance_kept : (d : D) → K d → K (io.cq_advance d)

module _ {D : Type 0} (io : Device D) (fuel : ℕ) (serves : Serves io fuel) (K : D → Type 0)
    (kept : Kept io K) where
  open serves use {
    backlog, delay, backlog_fits, delay_fits, peek_backlog, peek_found, peek_empty, advance_backlog,
  }

  -- The loop ends within the backlog, and takes as many completions as it counts.
  abbrev pub Reaped : ℕ → DiskManager D → ℕ → DiskManager D → Type 0
  Reaped completions s n t =
      (n + backlog t.device ≡ completions + backlog s.device)
      × (n ≡ completions → (backlog s.device ≡ 0) ⊎ (delay t.device < delay s.device))
      × (completions ≤ n)
      × (t.next_page_id ≡ s.next_page_id)
      × K t.device

  reap-Reaped :
      (rounds completions : ℕ) (s : DiskManager D)
      → K s.device
      → backlog s.device < rounds
      → Ensures (reap io rounds completions s) (Reaped completions s) (λ _ _. ⊥)
  unfolding reap
  reap-Reaped zero completions s k h = elim h [ ]
  reap-Reaped (suc rounds) completions s k h = elim (Bool-cases (io.peek_cqe s.device).0) [
    | inl found ↦
        let d = (io.peek_cqe s.device).1 in
        let pending : 0 < backlog d = rw peek_backlog (peek_found s.device found) in
        rw found (
          Ensures-weaken (reap io rounds (completions + 1) (record s { device = io.cq_advance d }))
            (Reaped (completions + 1) (record s { device = io.cq_advance d }))
            (Reaped completions s) (λ _ _. ⊥) (λ _ _. ⊥)
            (reap-Reaped rounds (completions + 1) (record s { device = io.cq_advance d })
              (kept.advance_kept d (kept.peek_kept s.device k))
              (omega (arith, peek_backlog s.device, advance_backlog d pending)))
            (λ n t (sum, _, le, same, kt). (
              omega (arith, sum, peek_backlog s.device, advance_backlog d pending),
              λ e. absurd (omega arith),
              omega arith,
              same,
              kt,
            ))
            (λ e t b. b))
    | inr empty ↦ rw empty (
      omega (arith, peek_backlog s.device),
      λ _. peek_empty s.device empty,
      omega arith,
      refl,
      kept.peek_kept s.device k,
    )
  ]

  -- The loop over the completions at hand ends within the fuel, and the ring is short of as many as it
  -- counts; it counts none only if none is in flight or one comes sooner. What the polls keep is kept.
  pub retrieve_async_completions-Reaped :
      (s : DiskManager D)
      → K s.device
      → Ensures (retrieve_async_completions io fuel s) (Reaped 0 s) (λ _ _. ⊥)
  unfolding retrieve_async_completions
  retrieve_async_completions-Reaped s k = reap-Reaped fuel 0 s k (backlog_fits s.device)

  -- With a write in flight the waiting loop ends, and at least one completion was taken.
  abbrev pub Awaited : DiskManager D → Unit {0} → DiskManager D → Type 0
  Awaited s _ t =
      (backlog t.device < backlog s.device) × (t.next_page_id ≡ s.next_page_id) × K t.device

  progress :
      (s t : DiskManager D) (n rounds : ℕ)
      → n ≡ 0
      → (n ≡ 0 → (backlog s.device ≡ 0) ⊎ (delay t.device < delay s.device))
      → n + backlog t.device ≡ 0 + backlog s.device
      → 0 < backlog s.device
      → delay s.device < suc rounds
      → (0 < backlog t.device) × (delay t.device < rounds)
  progress s t n rounds e empty sum pending h = elim (empty e) [
    | inl none_left ↦ absurd (omega arith)
    | inr sooner ↦ (omega arith, omega arith)
  ]

  await-Awaited :
      (rounds : ℕ) (s : DiskManager D)
      → K s.device
      → 0 < backlog s.device
      → delay s.device < rounds
      → Ensures (await_completion io fuel rounds s) (Awaited s) (λ _ _. ⊥)
  unfolding await_completion
  await-Awaited zero s k pending h = elim h [ ]
  await-Awaited (suc rounds) s k pending h =
      Ensures-bind _ _ (Reaped 0 s) (Awaited s) (λ _ _. ⊥) (retrieve_async_completions-Reaped s k)
        λ n t (sum, empty, le, same, kt). elim (Bool-cases (n == 0)) [
          | inl none_yet ↦ rw none_yet (
              Ensures-weaken (await_completion io fuel rounds t) (Awaited t) (Awaited s) (λ _ _. ⊥)
                (λ _ _. ⊥)
                (await-Awaited rounds t kt
                  (progress s t n rounds (==→eq n 0 none_yet) empty sum pending h).0
                  (progress s t n rounds (==→eq n 0 none_yet) empty sum pending h).1)
                (λ u w (lt, same', kw). (omega arith, same' ∙ same, kw)) (λ e w b. b))
          | inr some_now ↦ rw some_now (omega (arith, ==→ne n 0 some_now), same, kt)
        ]

  -- With a write in flight, the loop that waits for a completion ends within the fuel and has taken at
  -- least one, where the kernel completes what it accepted; what the polls keep is kept.
  pub await_completion-Awaited :
      (s : DiskManager D)
      → K s.device
      → 0 < backlog s.device
      → Ensures (await_completion io fuel fuel s) (Awaited s) (λ _ _. ⊥)
  await_completion-Awaited s k pending = await-Awaited fuel s k pending (delay_fits s.device)
