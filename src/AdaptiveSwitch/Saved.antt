-- ===== src/AdaptiveSwitch/Saved.antt =====
-- The saved form of the mode switch (src/adaptive_switch.ts), as `JSON.stringify` gets it.
use open_ttt.Prelude.{ℕ, Bool, List, Option, none, some, ◌≡◌, refl}
use open_ttt.AdaptiveSwitch.{AdaptiveMode, AdaptiveSwitch, new}

pub record SavedSwitch : Type 0 where
  pub history : List Bool
  pub current_mode : AdaptiveMode
  pub consecutive_failures : ℕ
  pub penalty_cooldown : ℕ
  -- Absent in older states.
  pub tolerance : Option ℕ

unfoldable pub save_switch : AdaptiveSwitch → SavedSwitch
save_switch s = record {
  history = s.history;
  current_mode = s.current_mode;
  consecutive_failures = s.consecutive_failures;
  penalty_cooldown = s.penalty_cooldown;
  tolerance = some s.tolerance;
}

abbrev tolerance_or_default : Option ℕ → ℕ
tolerance_or_default none = 100
tolerance_or_default (some n) = n

unfoldable pub restore_switch : SavedSwitch → AdaptiveSwitch
restore_switch d = record (new (some (tolerance_or_default d.tolerance))) {
  history = d.history;
  current_mode = d.current_mode;
  consecutive_failures = d.consecutive_failures;
  penalty_cooldown = d.penalty_cooldown;
}

-- A saved switch is restored as it was.
pub restore-save : (s : AdaptiveSwitch) → restore_switch (save_switch s) ≡ s
unfolding restore_switch save_switch new
restore-save s = refl
