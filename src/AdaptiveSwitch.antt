-- ===== src/AdaptiveSwitch.antt =====
-- The adaptive mode switch (src/adaptive_switch.ts). Times are whole milliseconds, rates are
-- compared as fractions of whole numbers, and logging is left out.
pub mod Order
pub mod Modes
pub mod Window
pub mod Saved
mod Tests
use open_ttt.Prelude.{
  ℕ, suc, zero, ◌+◌, ◌-◌, ◌*◌, Bool, true, false, not, ◌&&◌, Option, none, some, List, [], ◌∷◌,
  ◌++◌, Text, length, drop, get_elem?, count_if, ltb, leb, ◌==◌, if◌then◌else◌, text_eq, codes,
}

pub data AdaptiveMode : Type 0 where
  turbo full : AdaptiveMode

pub record TttRecord : Type 0 where
  pub time : ℕ
  pub tx_order : List Text
  pub grg_payload : List Text

pub record Block : Type 0 where
  pub timestamp : ℕ
  pub txs : List Text
  pub payload : Text

pub record AdaptiveSwitch : Type 0 where
  pub history : List Bool
  pub current_mode : AdaptiveMode
  pub penalty_cooldown : ℕ
  pub consecutive_failures : ℕ
  pub tolerance : ℕ

abbrev pub window_size : ℕ
window_size = 20

abbrev pub min_blocks : ℕ
min_blocks = 20

-- The thresholds 0.95 and 0.85, in hundredths.
abbrev pub turbo_entry_threshold : ℕ
turbo_entry_threshold = 95

abbrev pub turbo_maintain_threshold : ℕ
turbo_maintain_threshold = 85

-- `TIER_TOLERANCE_MS`; a tier that is not a key of it gives `undefined`.
unfoldable pub tier_tolerance_ms : Text → Option ℕ
tier_tolerance_ms tier =
    if text_eq tier (codes "T0_epoch")
    then some 2000
    else if text_eq tier (codes "T1_block")
    then some 200
    else if text_eq tier (codes "T2_slot")
    then some 500
    else if text_eq tier (codes "T3_micro")
    then some 10
    else none

abbrev or_else : Option ℕ → ℕ → ℕ
or_else none d = d
or_else (some n) d = n

-- `tier ? (TIER_TOLERANCE_MS[tier] ?? this.tolerance) : this.tolerance`; "" counts as no tier.
unfoldable pub effective_tolerance : Option Text → ℕ → ℕ
effective_tolerance none default_ms = default_ms
effective_tolerance (some []) default_ms = default_ms
effective_tolerance (some (c ∷ cs)) default_ms = or_else (tier_tolerance_ms (c ∷ cs)) default_ms

unfoldable pub new : Option ℕ → AdaptiveSwitch
new tolerance = record {
  history = [];
  current_mode = full;
  penalty_cooldown = 0;
  consecutive_failures = 0;
  tolerance = or_else tolerance 100;
}

-- `a[i] === b[i]`, where both may be past the end.
abbrev same_elem : Option Text → Option Text → Bool
same_elem none none = true
same_elem (some a) (some b) = text_eq a b
same_elem _ _ = false

-- The loop over the positions from `i` on, with the rounds left.
unfoldable pub compare_from : ℕ → ℕ → List Text → List Text → Bool
compare_from zero i block_txs expected = true
compare_from (suc rounds) i block_txs expected =
    let rest = compare_from rounds (suc i) block_txs expected in
    if not (same_elem (get_elem? block_txs i) (get_elem? expected i)) then false else rest

unfoldable pub compare_transaction_order : List Text → List Text → Bool
unfolding compare_from
compare_transaction_order block_txs expected =
    if not (length block_txs == length expected)
    then false
    else compare_from (length block_txs) 0 block_txs expected

abbrev abs_diff : ℕ → ℕ → ℕ
abs_diff a b = if ltb a b then b - a else a - b

-- `sequenceOk`: the order matches and the time is within the tolerance.
unfoldable pub sequence_ok : AdaptiveSwitch → Block → TttRecord → Option Text → Bool
sequence_ok s block rec tier =
    compare_transaction_order block.txs rec.tx_order
    && ltb (abs_diff block.timestamp rec.time) (effective_tolerance tier s.tolerance)

-- `history.push(ok)`, and the oldest entry goes once there are too many.
unfoldable pub push_history : List Bool → Bool → List Bool
push_history history b =
    let longer = history ++ b ∷ [] in
    if ltb window_size (length longer) then drop 1 longer else longer

abbrev pub is_true : Bool → Bool
is_true b = b

abbrev pub effective_threshold : AdaptiveMode → ℕ
effective_threshold turbo = turbo_maintain_threshold
effective_threshold full = turbo_entry_threshold

-- `matchRate >= effectiveThreshold`, where an empty history has the rate 0.
abbrev pub rate_reaches : ℕ → List Bool → Bool
rate_reaches threshold history =
    if ltb 0 (length history)
    then leb (threshold * length history) (100 * count_if is_true history)
    else leb threshold 0

-- The state after the history and the cooldown are updated: the mode is chosen anew.
unfoldable pub choose_mode : AdaptiveSwitch → AdaptiveSwitch
choose_mode s =
    if leb min_blocks (length s.history)
      && (rate_reaches (effective_threshold s.current_mode) s.history && s.penalty_cooldown == 0)
    then record s { current_mode = turbo; consecutive_failures = 0 }
    else record s { current_mode = full }

-- `verifyBlock` from the computed `sequenceOk` on.
unfoldable pub observe : AdaptiveSwitch → Bool → AdaptiveSwitch
unfolding choose_mode push_history
observe s b =
    choose_mode
      (record s { history = push_history s.history b; penalty_cooldown = s.penalty_cooldown - 1 })

unfoldable pub verify_block :
    AdaptiveSwitch → Block → TttRecord → Option Text → AdaptiveSwitch × AdaptiveMode
unfolding observe
verify_block s block rec tier =
    let s' = observe s (sequence_ok s block rec tier) in (s', s'.current_mode)

-- The discount in percent.
unfoldable pub get_fee_discount : AdaptiveMode → ℕ
get_fee_discount turbo = 20
get_fee_discount full = 0

unfoldable pub reset : AdaptiveSwitch → AdaptiveSwitch
reset s = record s {
  history = [];
  current_mode = full;
  penalty_cooldown = 0;
  consecutive_failures = 0;
}
