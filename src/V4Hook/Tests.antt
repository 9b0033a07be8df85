-- ===== src/V4Hook/Tests.antt =====
-- A run of the hook simulation (src/v4_hook.ts).
use open_ttt.Prelude.{true, false, List, [], ◌∷◌, codes}
use open_ttt.V4Hook.{Config, gives, throws, initial_stats}
use open_ttt.V4Hook.Accounts.{Event, before, after, run, IsAccountOf, run-IsAccountOf}

abbrev test_config : Config
test_config = record { min_balance = 10; swap_fee = 3; has_fee_collector = true }

abbrev test_events : List Event
test_events =
    before (gives 12)
    ∷ after (gives tt) true 1500
    ∷ before (gives 9)
    ∷ after (throws (codes "reverted")) false 2500
    ∷ []

run-IsAccountOf_example :
    IsAccountOf test_config test_events initial_stats (run test_config test_events initial_stats)
run-IsAccountOf_example = run-IsAccountOf test_config test_events initial_stats
