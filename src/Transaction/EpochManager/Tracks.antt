-- ===== src/Transaction/EpochManager/Tracks.antt =====
-- The counters follow the epochs that were entered and not left.
use native.Mathlib.Decide.{ℕ_discrete}
use stingdb.Base.{
  ℕ, ◌+◌, ◌%◌, ◌^◌, ◌≤◌, ◌<◌, ◌≡◌, refl, List, [], ◌∷◌, ◌==◌, if◌then◌else◌, length, count, arith,
  eq→==, ne→==,
}
use stingdb.Transaction.EpochManager.{EpochManager, create, enter_epoch, exit_epoch, advance_epoch}

-- How many of the epochs have the slot.
unfoldable pub tally : ℕ → List ℕ → ℕ
tally k [] = 0
tally k (e ∷ es) = let rest = tally k es in (if e % 1024 == k then 1 else 0) + rest

-- The epochs without one occurrence of `e`.
unfoldable pub drop_one : ℕ → List ℕ → List ℕ
drop_one e [] = []
drop_one e (g ∷ gs) = let rest = drop_one e gs in if g == e then gs else g ∷ rest

-- `es` lists the epochs that were entered and not left.
pub record Tracks (m : EpochManager) (es : List ℕ) : Type 0 where
  pub counts : (k : ℕ) → m.active_epochs k ≡ tally k es
  pub few : length es < 2 ^ 31
  pub past : (e : ℕ) → 0 < count e es → (0 < e) × (e ≤ m.global_epoch)

pub tally-length : (k : ℕ) (es : List ℕ) → tally k es ≤ length es
unfolding tally
tally-length k [] = omega arith
tally-length k (e ∷ es) = ground (arith, tally-length k es)

pub tally-drop_one :
    (k e : ℕ) (es : List ℕ)
    → 0 < count e es
    → tally k (drop_one e es) + (if e % 1024 == k then 1 else 0) ≡ tally k es
unfolding tally drop_one
tally-drop_one k e [] h = absurd (omega arith)
tally-drop_one k e (g ∷ gs) h = elim (ℕ_discrete g e) [
  | yes same ↦ rw (eq→== g e same, same) (omega arith)
  | no ne ↦
      rw (ne→== g e ne)
        (omega (arith, tally-drop_one k e gs (omega (arith, (rw (ne→== g e ne) at h)))))
]

pub length-drop_one : (e : ℕ) (es : List ℕ) → length (drop_one e es) ≤ length es
unfolding drop_one
length-drop_one e [] = omega arith
length-drop_one e (g ∷ gs) = ground (arith, length-drop_one e gs)

pub count-drop_one : (x e : ℕ) (es : List ℕ) → count x (drop_one e es) ≤ count x es
unfolding drop_one
count-drop_one x e [] = omega arith
count-drop_one x e (g ∷ gs) = ground (arith, count-drop_one x e gs)

pub create-Tracks : Tracks create []
unfolding create tally
create-Tracks = record { counts = λ k. refl; few = omega arith; past = λ e h. absurd (omega arith) }

-- A transaction enters the current epoch: it is returned, and is one more of those tracked. This
-- needs a current epoch above 0 and fewer than 2 ^ 31 - 1 epochs tracked.
pub enter_epoch-Tracks :
    (m : EpochManager) (es : List ℕ)
    → Tracks m es
    → 0 < m.global_epoch
    → length es + 1 < 2 ^ 31
    → ((enter_epoch m).0 ≡ m.global_epoch) × Tracks (enter_epoch m).1 (m.global_epoch ∷ es)
unfolding enter_epoch tally
enter_epoch-Tracks m es t pos few = (
  refl,
  record {
    counts = λ k. ground (arith, t.counts k, tally-length k es);
    few = omega arith;
    past = λ e h. ground (arith, t.past e);
  },
)

-- A transaction leaves an epoch that is tracked: one occurrence of it goes.
pub exit_epoch-Tracks :
    (m : EpochManager) (es : List ℕ) (e : ℕ)
    → Tracks m es
    → 0 < count e es
    → Tracks (exit_epoch e m) (drop_one e es)
unfolding exit_epoch
exit_epoch-Tracks m es e t h = record {
  counts = λ k. ground (arith, t.counts k, tally-drop_one k e es h, tally-length k es, t.few);
  few = omega (arith, length-drop_one e es, t.few);
  past = λ g k. t.past g (omega (arith, count-drop_one g e es));
}

-- Time goes on: no tracked epoch is forgotten.
pub advance_epoch-Tracks :
    (m : EpochManager) (es : List ℕ)
    → Tracks m es
    → m.global_epoch + 1 < 2 ^ 64
    → Tracks (advance_epoch m) es
unfolding advance_epoch
advance_epoch-Tracks m es t h = record {
  counts = t.counts;
  few = t.few;
  past = λ e k. ((t.past e k).0, omega (arith, (t.past e k).1));
}
