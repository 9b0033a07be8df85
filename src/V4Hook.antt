-- ===== src/V4Hook.antt =====
-- The hook simulation (src/v4_hook.ts). What the contracts answer is an argument; logging is left
-- out, and so are the texts of messages but for the one that the code looks for.
pub mod Accounts
mod Tests
use open_ttt.Prelude.{
  ℕ, suc, ◌+◌, ◌/◌, Bool, true, false, not, ◌||◌, ◌&&◌, List, [], ◌∷◌, ◌++◌, Text, codes, ltb, ◌==◌,
  if◌then◌else◌,
}

pub record Stats : Type 0 where
  pub total_swaps : ℕ
  pub total_fees_collected : ℕ
  pub last_swap_timestamp : ℕ
  pub failed_burns : ℕ

-- What the hook is made with: the least balance, the fee, and whether it has a fee collector.
pub record Config : Type 0 where
  pub min_balance : ℕ
  pub swap_fee : ℕ
  pub has_fee_collector : Bool

-- What a call of a contract gives: a value, or an error with its message.
pub data Answer {ℓ} (X : Type ℓ) : Type ℓ where
  gives : X → Answer X
  throws : Text → Answer X

pub data BeforeResult : Type 0 where
  passed insufficient_balance : BeforeResult
  -- The error of the balance query as it is, or wrapped.
  rethrown : Text → BeforeResult
  check_failed : Text → BeforeResult

-- A call that the hook makes.
pub data HookCall : Type 0 where
  burn : ℕ → ℕ → HookCall
  collect_burn_fee : HookCall

-- `text.startsWith(word)` and `text.includes(word)`.
unfoldable pub starts_with : Text → Text → Bool
starts_with [] text = true
starts_with (c ∷ word) [] = false
starts_with (c ∷ word) (d ∷ text) = c == d && starts_with word text

unfoldable pub includes : Text → Text → Bool
unfolding starts_with
includes word [] = starts_with word []
includes word (d ∷ text) = starts_with word (d ∷ text) || includes word text

abbrev pub initial_stats : Stats
initial_stats = record {
  total_swaps = 0;
  total_fees_collected = 0;
  last_swap_timestamp = 0;
  failed_burns = 0;
}

-- `beforeSwap`, from what `balanceOf` answers.
unfoldable pub before_swap : Config → Answer ℕ → Stats → Stats × BeforeResult
unfolding includes
before_swap config (throws message) s =
    if includes (codes "Insufficient TTT balance") message
    then (s, rethrown message)
    else (s, check_failed message)
before_swap config (gives balance) s =
    if ltb balance config.min_balance
    then (s, insufficient_balance)
    else (record s { total_fees_collected = s.total_fees_collected + config.swap_fee }, passed)

-- The calls that follow a burn: the fee collection, whose own failure is only logged.
abbrev pub collected : Config → Bool → List HookCall
collected config has_fee_params =
    if config.has_fee_collector && has_fee_params then collect_burn_fee ∷ [] else []

abbrev pub swapped : ℕ → Stats → Stats
swapped now_ms s = record s { total_swaps = s.total_swaps + 1; last_swap_timestamp = now_ms / 1000 }

-- `afterSwap`, from what `burnTTT` answers, whether all optional parameters are given, and the
-- clock. The burn is for tier 1.
unfoldable pub after_swap : Config → Answer (Unit {0}) → Bool → ℕ → Stats → Stats × List HookCall
after_swap config (gives u) has_fee_params now_ms s =
    (swapped now_ms s, burn config.swap_fee 1 ∷ collected config has_fee_params)
after_swap config (throws message) has_fee_params now_ms s =
    (swapped now_ms (record s { failed_burns = s.failed_burns + 1 }), burn config.swap_fee 1 ∷ [])
