-- ===== src/Subgraph/Tests.antt =====
-- Runs of the subgraph's handlers (subgraph/src/mapping.ts).
use open_ttt.Prelude.{ℕ, ◌*◌, ◌/◌, ◌≡◌, refl, some, List, [], ◌∷◌, Text, codes, lookup, insert}
use open_ttt.Subgraph.{
  PotAnchoredEvent, SwapVerifiedEvent, Graph, ChainEvent, anchored, swapped, indexed, count_daily,
  count_hourly, handle_pot_anchored, handle_swap_verified,
}
use open_ttt.Subgraph.Totals.{day_stats, daily-indexed}

abbrev graph : Graph ℕ
graph = record { zero_ratio = 0; ratio = λ a b. a * 100 / b; decimal = λ n. n ∷ []; hex = λ t. t }

abbrev swap_at : ℕ → Text → ℕ → SwapVerifiedEvent
swap_at t mode fee = record {
  hook = codes "h";
  pool = codes "p";
  sender = codes "s";
  mode = mode;
  fee_amount = fee;
  block_timestamp = t;
  block_number = 1;
  tx_hash = codes "x";
  log_index = fee;
}

abbrev anchor : PotAnchoredEvent
anchor = record {
  stratum = 1;
  grg_hash = codes "g";
  pot_hash = codes "q";
  timestamp = 86401;
  block_number = 1;
  tx_hash = codes "y";
  log_index = 0;
}

abbrev events : List ChainEvent
events =
    swapped (swap_at 90000 (codes "full") 5)
    ∷ anchored anchor
    ∷ swapped (swap_at 86401 (codes "turbo") 3)
    ∷ swapped (swap_at 7 (codes "turbo") 2)
    ∷ []

daily-indexed_example :
    lookup (86400 ∷ []) (indexed graph events).daily ≡ day_stats graph (86400 ∷ []) events
daily-indexed_example = daily-indexed graph (86400 ∷ []) events

two_swaps :
    lookup (86400 ∷ []) (indexed graph events).daily
    ≡ some (record {
      date = 86400 ∷ [];
      total_swaps = 2;
      turbo_count = 1;
      full_count = 1;
      turbo_ratio = 50;
      total_fees = 8;
    })
unfolding indexed count_daily count_hourly handle_pot_anchored handle_swap_verified lookup insert
two_swaps = refl
