-- ===== src/Transaction/EpochManager.antt =====
-- src/transaction/epoch_manager.h. The operations on the atomics are taken one after the other.
pub mod Tracks
pub mod Newest
use stingdb.Base.{ℕ, zero, suc, ◌+◌, ◌-◌, ◌%◌, ◌^◌, Bool, ltb, ◌&&◌, ◌==◌, if◌then◌else◌}

abbrev pub max_epochs : ℕ
max_epochs = 1024

-- `active_epochs` is the array of `max_epochs` counters, the bit patterns of `int32_t`; every index
-- into it is a remainder by its size.
pub record EpochManager : Type 0 where
  pub global_epoch : ℕ
  pub active_epochs : ℕ → ℕ

unfoldable pub create : EpochManager
create = record { global_epoch = 1; active_epochs = λ k. 0 }

abbrev pub counted : (ℕ → ℕ) → ℕ → ℕ → ℕ → ℕ
counted counters slot n k = if k == slot then n else counters k

unfoldable pub enter_epoch : EpochManager → ℕ × EpochManager
enter_epoch m =
    let current = m.global_epoch in
    let slot = current % max_epochs in
    (
      current,
      record m {
        active_epochs = counted m.active_epochs slot ((m.active_epochs slot + 1) % 2 ^ 32);
      },
    )

unfoldable pub exit_epoch : ℕ → EpochManager → EpochManager
exit_epoch epoch m =
    let slot = epoch % max_epochs in
    record m {
      active_epochs = counted m.active_epochs slot ((m.active_epochs slot + 2 ^ 32 - 1) % 2 ^ 32);
    }

unfoldable pub advance_epoch : EpochManager → EpochManager
advance_epoch m = record m { global_epoch = (m.global_epoch + 1) % 2 ^ 64 }

-- `count > 0` of a signed counter.
abbrev pub is_active : EpochManager → ℕ → Bool
is_active m e = let n = m.active_epochs (e % max_epochs) in ltb 0 n && ltb n (2 ^ 31)

-- The loop from `e` down to 1.
unfoldable pub scan : EpochManager → ℕ → ℕ → ℕ
scan m current zero = current
scan m current (suc e) = let rest = scan m current e in if is_active m (suc e) then suc e else rest

unfoldable pub get_oldest_active_epoch : EpochManager → ℕ
unfolding scan
get_oldest_active_epoch m = scan m m.global_epoch m.global_epoch
