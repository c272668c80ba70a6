-- ===== src/Transaction/EpochManager/Newest.antt =====
-- What the scan over the counters finds.
use native.Mathlib.Decide.{ℕ_discrete}
use stingdb.Base.{
  ℕ, zero, suc, ◌+◌, ◌%◌, ◌≤◌, ◌<◌, ◌≡◌, refl, ap, ◌⊎◌, inl, inr, true, false, List, [], ◌∷◌, count,
  arith, Bool-cases, eq→==, ne→==,
}
use stingdb.Transaction.EpochManager.{EpochManager, scan, get_oldest_active_epoch, is_active}
use stingdb.Transaction.EpochManager.Tracks.{Tracks, tally, tally-length}

tally-count : (e : ℕ) (es : List ℕ) → 0 < count e es → 0 < tally (e % 1024) es
unfolding tally
tally-count e [] h = absurd (omega arith)
tally-count e (g ∷ gs) h = ground (arith, tally-count e gs)

-- A slot that is counted is that of an epoch.
tally-some : (k : ℕ) (es : List ℕ) → 0 < tally k es → (e : ℕ) × (0 < count e es) × (e % 1024 ≡ k)
unfolding tally
tally-some k [] h = absurd (omega arith)
tally-some k (g ∷ gs) h = elim (ℕ_discrete (g % 1024) k) [
  | yes same ↦ (g, rw (eq→== g g refl) (omega arith), same)
  | no ne ↦
      let (e, there, slot) = tally-some k gs (omega (arith, (rw (ne→== (g % 1024) k ne) at h))) in
      (e, ground arith, slot)
]

module _ (m : EpochManager) (es : List ℕ) (t : Tracks m es)
    (recent : (e : ℕ) → 0 < count e es → m.global_epoch < e + 1024) where
  active_slot : (e : ℕ) → is_active m e ≡ true → 0 < tally (e % 1024) es
  active_slot e h = ground (arith, t.counts (e % 1024))

  idle_slot : (e : ℕ) → is_active m e ≡ false → tally (e % 1024) es ≡ 0
  idle_slot e h = ground (arith, t.counts (e % 1024), tally-length (e % 1024) es, t.few)

  -- The scan stops at the greatest epoch of the list, if there is one.
  abbrev pub Stops : ℕ → Type 0
  Stops found =
      ((0 < count found es) × ((e : ℕ) → 0 < count e es → e ≤ found))
      ⊎ ((found ≡ m.global_epoch) × ((e : ℕ) → count e es ≡ 0))

  idle_epoch : (e : ℕ) → is_active m e ≡ false → count e es ≡ 0
  idle_epoch e h = elim (ℕ_discrete (count e es) 0) [
    | yes z ↦ z
    | no p ↦ absurd (omega (arith, idle_slot e h, tally-count e es (omega arith)))
  ]

  found_here :
      (from : ℕ)
      → suc from ≤ m.global_epoch
      → ((e : ℕ) → 0 < count e es → e ≤ suc from)
      → (e : ℕ) → 0 < count e es
      → e % 1024 ≡ suc from % 1024
      → e ≡ suc from
  found_here from h above e there slot = omega (arith, above e there, recent e there)

  scan-Stops :
      (from : ℕ)
      → from ≤ m.global_epoch
      → ((e : ℕ) → 0 < count e es → e ≤ from)
      → Stops (scan m m.global_epoch from)
  unfolding scan
  scan-Stops zero h above = inr (refl, λ e. none_there e)
    where
      none_there : (e : ℕ) → count e es ≡ 0
      none_there e = elim (ℕ_discrete (count e es) 0) [
        | yes z ↦ z
        | no p ↦ absurd (omega (arith, above e (omega arith), (t.past e (omega arith)).0))
      ]
  scan-Stops (suc from) h above = elim (Bool-cases (is_active m (suc from))) [
    | inl on ↦
        let (e, there, slot) = tally-some (suc from % 1024) es (active_slot (suc from) on) in
        let same = found_here from h above e there slot in rw on (inl (rw (← same) there, above))
    | inr off ↦
        rw off
          (scan-Stops from (omega arith) (λ e there. lower e there (idle_epoch (suc from) off)))
  ]
    where
      lower : (e : ℕ) → 0 < count e es → count (suc from) es ≡ 0 → e ≤ from
      lower e there none = elim (ℕ_discrete e (suc from)) [
        | yes same ↦ absurd (omega (arith, ap (λ x. count x es) same))
        | no ne ↦ omega (arith, above e there)
      ]

  -- While every tracked epoch is among the last 1024, `GetOldestActiveEpoch` returns the newest of
  -- them: one that is tracked and that none exceeds. Without any it returns the current epoch.
  pub get_oldest_active_epoch-newest : Stops (get_oldest_active_epoch m)
  unfolding get_oldest_active_epoch
  get_oldest_active_epoch-newest =
      scan-Stops m.global_epoch (omega arith) (λ e there. (t.past e there).1)
