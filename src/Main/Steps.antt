-- ===== src/Main/Steps.antt =====
-- What the process asks of its libraries on its way to the event loop.
use stingdb.Base.{
  ℕ, ◌≡◌, refl, ap, ◌⊎◌, inl, inr, Bool, true, false, List, [], ◌∷◌, ◌++◌, Bool-cases,
}
use stingdb.Base.Effect.{Error, Outcome, done, thrown, fault}

-- The steps that may throw, beside the file and the ring: the memory of the disk manager, of the pool
-- with a number of frames and of the instance; the constructor of the `io_context`; the acceptor, which
-- opens, binds and listens on a port; its option; the start of the first accept; and `emplace_back` of
-- the thread of a number.
pub data Step : Type 0 where
  new_disk_manager new_instance new_io_context set_reuse_address start_accept : Step
  new_pool new_acceptor new_thread : ℕ → Step

-- Whether a step returns, in a state `K` of the system; `false` is an exception.
pub record Host (K : Type 0) : Type 0 where
  pub attempt : K → Step → Bool × K

-- An exception that leaves a call: one of the disk manager, or of a step.
pub data Cause : Type 0 where
  of_disk : Error → Cause
  of_step : Step → Cause

pub data Start (K A : Type 0) : Type 0 where
  started : A → K → Start K A
  failed : Cause → K → Start K A
  crashed : Start K A

abbrev pub then_start : {K A B : Type 0} → Start K A → (A → K → Start K B) → Start K B
then_start (started a k) f = f a k
then_start (failed c k) f = failed c k
then_start crashed f = crashed

abbrev pub from_disk : {K A : Type 0} → Outcome K A → Start K A
from_disk (done a k) = started a k
from_disk (thrown e k) = failed (of_disk e) k
from_disk fault = crashed

module _ {K : Type 0} (host : Host K) where
  open host use {attempt}

  -- One step after the other; an exception ends them.
  unfoldable pub try_all : List Step → K → Start K (Unit {0})
  try_all [] k = started tt k
  try_all (step ∷ steps) k = elim (attempt k step).0 [
    | true ↦ try_all steps (attempt k step).1
    | false ↦ failed (of_step step) (attempt k step).1
  ]

  -- Every step returned, from `k` to `k'`.
  abbrev pub Passed : List Step → K → K → Type 0
  Passed [] k k' = k' ≡ k
  Passed (step ∷ steps) k k' = ((attempt k step).0 ≡ true) × Passed steps (attempt k step).1 k'

  -- `step` is the first of the steps that threw.
  pub record IsRefused (steps : List Step) (k : K) (step : Step) : Type 0 where
    pub before : List Step
    pub behind : List Step
    pub at : K
    pub among : steps ≡ before ++ step ∷ behind
    pub passed : Passed before k at
    pub refused : (attempt at step).0 ≡ false

  later :
      (x : Step) (steps : List Step) (k : K) (step : Step)
      → (attempt k x).0 ≡ true
      → IsRefused steps (attempt k x).1 step
      → IsRefused (x ∷ steps) k step
  later x steps k step ok r = record {
    before = x ∷ r.before;
    behind = r.behind;
    at = r.at;
    among = ap (λ l. x ∷ l) r.among;
    passed = (ok, r.passed);
    refused = r.refused;
  }

  -- Steps pass, or one is refused.
  pub try_all-Passed :
      (steps : List Step) (k : K)
      → ((k' : K) × (try_all steps k ≡ started tt k') × Passed steps k k')
        ⊎ ((step : Step) × (k' : K) × (try_all steps k ≡ failed (of_step step) k')
            × IsRefused steps k step)
  unfolding try_all
  try_all-Passed [] k = inl (k, refl, refl)
  try_all-Passed (x ∷ steps) k = elim (Bool-cases (attempt k x).0) [
    | inl ok ↦ elim (try_all-Passed steps (attempt k x).1) [
      | inl (k', e, passed) ↦ inl (k', rw (ok, try_all) e, (ok, passed))
      | inr (step, k', e, r) ↦ inr (step, k', rw (ok, try_all) e, later x steps k step ok r)
    ]
    | inr bad ↦ inr (
      x,
      (attempt k x).1,
      rw (bad, try_all) refl,
      record { before = []; behind = steps; at = k; among = refl; passed = refl; refused = bad },
    )
  ]
