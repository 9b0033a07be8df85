-- ===== src/AdaptiveSwitch/Modes.antt =====
-- Which mode a block leaves behind, and the state's invariant (src/adaptive_switch.ts).
use open_ttt.Prelude.{
  ℕ, ◌+◌, ◌-◌, ◌≤◌, ◌≡◌, refl, ◌↔◌, Bool, Option, List, [], ◌∷◌, length, count_if, arith, ◌++◌,
  length-append, length-drop, Text,
}
use open_ttt.AdaptiveSwitch.{
  AdaptiveMode, turbo, full, AdaptiveSwitch, Block, TttRecord, window_size, is_true, push_history,
  observe, choose_mode, sequence_ok, verify_block, new, reset,
}

-- The window holds at most its size, and no failure is ever counted.
pub record IsValid (s : AdaptiveSwitch) : Type 0 where
  pub windowed : length s.history ≤ window_size
  pub no_failures : s.consecutive_failures ≡ 0
  pub turbo_full_window : s.current_mode ≡ turbo → length s.history ≡ window_size

length-push_history :
    (history : List Bool) (b : Bool)
    → length history ≤ 20
    → (length (push_history history b) ≤ 20)
      × (length history ≤ length (push_history history b))
      × (length (push_history history b) ≤ length history + 1)
unfolding push_history
length-push_history history b h =
    ground (arith, length-append history (b ∷ []), length-drop 1 (history ++ b ∷ []))

pub new-IsValid : (tolerance : Option ℕ) → IsValid (new tolerance)
unfolding new
new-IsValid tolerance = record {
  windowed = omega arith;
  no_failures = refl;
  turbo_full_window = λ e. cc;
}

pub observe-IsValid : (s : AdaptiveSwitch) (b : Bool) → IsValid s → IsValid (observe s b)
unfolding observe
observe-IsValid s b v = ground (arith, length-push_history s.history b v.windowed)

pub reset-IsValid : (s : AdaptiveSwitch) → IsValid (reset s)
unfolding reset
reset-IsValid s = record { windowed = omega arith; no_failures = refl; turbo_full_window = λ e. cc }

-- Whatever the block and the record say, `verifyBlock` keeps the window at its size at most, keeps
-- the failure count at 0, and is in TURBO only with a full window.
pub verify_block-IsValid :
    (s : AdaptiveSwitch) (block : Block) (rec : TttRecord) (tier : Option Text)
    → IsValid s
    → IsValid (verify_block s block rec tier).0
unfolding verify_block
verify_block-IsValid s block rec tier v = observe-IsValid s (sequence_ok s block rec tier) v

-- How many of the last 20 blocks must match: 19 to enter TURBO, 17 to stay in it.
abbrev pub matches_needed : AdaptiveMode → ℕ
matches_needed turbo = 17
matches_needed full = 19

choose_mode_iff :
    (s : AdaptiveSwitch)
    → length s.history ≤ 20
    → ((choose_mode s).current_mode ≡ turbo) ↔ (
        (length s.history ≡ 20)
        × (matches_needed s.current_mode ≤ count_if is_true s.history)
        × (s.penalty_cooldown ≡ 0))
unfolding choose_mode
choose_mode_iff s h = ground arith

pub mode_iff :
    (s : AdaptiveSwitch) (b : Bool)
    → IsValid s
    → ((observe s b).current_mode ≡ turbo) ↔ (
        (length (push_history s.history b) ≡ 20)
        × (matches_needed s.current_mode ≤ count_if is_true (push_history s.history b))
        × (s.penalty_cooldown ≤ 1))
unfolding observe
mode_iff s b v =
    let bound = (length-push_history s.history b v.windowed).0 in
    ground (
      arith,
      choose_mode_iff
          (record s {
            history = push_history s.history b;
            penalty_cooldown = s.penalty_cooldown - 1;
          })
          bound,
    )
