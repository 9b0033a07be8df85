-- ===== src/AdaptiveSwitch/Tests.antt =====
-- Runs of the mode switch (src/adaptive_switch.ts).
use open_ttt.Prelude.{
  ◌+◌, ◌≤◌, ◌≡◌, ◌↔◌, true, false, Bool, none, List, [], ◌∷◌, ◌++◌, Text, codes, length, count_if,
  last, replicate,
}
use open_ttt.AdaptiveSwitch.{
  turbo, AdaptiveSwitch, Block, TttRecord, is_true, new, push_history, observe,
}
use open_ttt.AdaptiveSwitch.Modes.{new-IsValid, matches_needed, mode_iff}
use open_ttt.AdaptiveSwitch.Window.{run, run-eq-turbo_iff}

abbrev test_order : List Text
test_order = codes "a" ∷ codes "b" ∷ []

abbrev test_block : Block
test_block = record { timestamp = 1000; txs = test_order; payload = [] }

abbrev test_rec : TttRecord
test_rec = record { time = 1050; tx_order = test_order; grg_payload = [] }

abbrev test_switch : AdaptiveSwitch
test_switch = new none

abbrev test_results : List Bool
test_results = false ∷ replicate 18 true

mode_iff_example : ((observe test_switch true).current_mode ≡ turbo) ↔ (
    (length (push_history test_switch.history true) ≡ 20)
    × (matches_needed test_switch.current_mode
        ≤ count_if is_true (push_history test_switch.history true))
    × (test_switch.penalty_cooldown ≤ 1))
mode_iff_example = mode_iff test_switch true (new-IsValid none)

run-eq-turbo_iff_example :
    let seen = test_switch.history ++ (test_results ++ true ∷ []) in
    ((run test_switch (test_results ++ true ∷ [])).current_mode ≡ turbo) ↔ (
      (20 ≤ length seen)
      × (matches_needed (run test_switch test_results).current_mode
          ≤ count_if is_true (last 20 seen))
      × (test_switch.penalty_cooldown ≤ length test_results + 1))
run-eq-turbo_iff_example = run-eq-turbo_iff test_switch test_results true (new-IsValid none)
