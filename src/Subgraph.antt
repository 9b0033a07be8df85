-- ===== src/Subgraph.antt =====
-- The subgraph's event handlers (subgraph/src/mapping.ts): the entities that are stored for anchored
-- proofs and verified swaps. Decimal and hex text and the division of big decimals are parameters;
-- the store of each kind of entity is a map by id.
pub mod Totals
mod Tests
use open_ttt.Prelude.{
  ℕ, ◌+◌, ◌*◌, ◌/◌, Bool, true, false, not, Option, none, some, List, [], ◌∷◌, ◌++◌, Text, codes,
  text_eq, ltb, if◌then◌else◌, Dict, lookup, insert,
}

pub record PotAnchoredEvent : Type 0 where
  pub stratum : ℕ
  pub grg_hash : Text
  pub pot_hash : Text
  pub timestamp : ℕ
  pub block_number : ℕ
  pub tx_hash : Text
  pub log_index : ℕ

pub record SwapVerifiedEvent : Type 0 where
  pub hook : Text
  pub pool : Text
  pub sender : Text
  pub mode : Text
  pub fee_amount : ℕ
  pub block_timestamp : ℕ
  pub block_number : ℕ
  pub tx_hash : Text
  pub log_index : ℕ

pub record PotAnchor : Type 0 where
  pub stratum : ℕ
  pub grg_hash : Text
  pub pot_hash : Text
  pub timestamp : ℕ
  pub block_number : ℕ
  pub tx_hash : Text

pub record SwapVerification : Type 0 where
  pub hook : Text
  pub pool : Text
  pub sender : Text
  pub mode : Text
  pub fee_amount : ℕ
  pub timestamp : ℕ
  pub block_number : ℕ
  pub tx_hash : Text
  -- It is always left empty.
  pub pot_anchor : Option Text

pub record DailyStats (D : Type 0) : Type 0 where
  pub date : Text
  pub total_swaps : ℕ
  pub turbo_count : ℕ
  pub full_count : ℕ
  pub turbo_ratio : D
  pub total_fees : ℕ

pub record HourlyStats : Type 0 where
  pub hour : Text
  pub total_swaps : ℕ
  pub turbo_count : ℕ
  pub full_count : ℕ

pub record Store (D : Type 0) : Type 0 where
  pub anchors : Dict PotAnchor
  pub swaps : Dict SwapVerification
  pub daily : Dict (DailyStats D)
  pub hourly : Dict HourlyStats

-- Big decimals, and how numbers and hashes are written.
pub record Graph (D : Type 0) : Type 0 where
  pub zero_ratio : D
  pub ratio : ℕ → ℕ → D
  pub decimal : ℕ → Text
  pub hex : Text → Text

abbrev pub or_new {ℓ} : {X : Type ℓ} → Option X → X → X
or_new none x = x
or_new (some y) x = y

abbrev pub is_turbo : SwapVerifiedEvent → Bool
is_turbo e = text_eq e.mode (codes "turbo")

-- An event of either kind.
pub data ChainEvent : Type 0 where
  anchored : PotAnchoredEvent → ChainEvent
  swapped : SwapVerifiedEvent → ChainEvent

module _ {D : Type 0} (graph : Graph D) where
  abbrev pub empty_store : Store D
  empty_store = record { anchors = []; swaps = []; daily = []; hourly = [] }

  abbrev pub event_id : Text → ℕ → Text
  event_id tx_hash log_index = graph.hex tx_hash ++ (codes "-" ++ graph.decimal log_index)

  abbrev pub day_id : SwapVerifiedEvent → Text
  day_id e = graph.decimal (e.block_timestamp / 86400 * 86400)

  abbrev pub hour_id : SwapVerifiedEvent → Text
  hour_id e = graph.decimal (e.block_timestamp / 3600 * 3600)

  unfoldable pub handle_pot_anchored : PotAnchoredEvent → Store D → Store D
  handle_pot_anchored e s =
      let entity : PotAnchor = record {
        stratum = e.stratum;
        grg_hash = e.grg_hash;
        pot_hash = e.pot_hash;
        timestamp = e.timestamp;
        block_number = e.block_number;
        tx_hash = e.tx_hash;
      } in
      record s { anchors = insert (event_id e.tx_hash e.log_index) entity s.anchors }

  abbrev pub new_daily : Text → DailyStats D
  new_daily id = record {
    date = id;
    total_swaps = 0;
    turbo_count = 0;
    full_count = 0;
    turbo_ratio = graph.zero_ratio;
    total_fees = 0;
  }

  abbrev pub new_hourly : Text → HourlyStats
  new_hourly id = record { hour = id; total_swaps = 0; turbo_count = 0; full_count = 0 }

  unfoldable pub count_daily : SwapVerifiedEvent → DailyStats D → DailyStats D
  count_daily e d =
      let total = d.total_swaps + 1 in
      let turbo = if is_turbo e then d.turbo_count + 1 else d.turbo_count in
      record {
        date = d.date;
        total_swaps = total;
        turbo_count = turbo;
        full_count = if is_turbo e then d.full_count else d.full_count + 1;
        turbo_ratio = if ltb 0 total then graph.ratio turbo total else d.turbo_ratio;
        total_fees = d.total_fees + e.fee_amount;
      }

  unfoldable pub count_hourly : SwapVerifiedEvent → HourlyStats → HourlyStats
  count_hourly e h = record {
    hour = h.hour;
    total_swaps = h.total_swaps + 1;
    turbo_count = if is_turbo e then h.turbo_count + 1 else h.turbo_count;
    full_count = if is_turbo e then h.full_count else h.full_count + 1;
  }

  unfoldable pub handle_swap_verified : SwapVerifiedEvent → Store D → Store D
  handle_swap_verified e s =
      let swap : SwapVerification = record {
        hook = e.hook;
        pool = e.pool;
        sender = e.sender;
        mode = e.mode;
        fee_amount = e.fee_amount;
        timestamp = e.block_timestamp;
        block_number = e.block_number;
        tx_hash = e.tx_hash;
        pot_anchor = none;
      } in
      let day = day_id e in
      let hour = hour_id e in
      record s {
        swaps = insert (event_id e.tx_hash e.log_index) swap s.swaps;
        daily = insert day (count_daily e (or_new (lookup day s.daily) (new_daily day))) s.daily;
        hourly =
            insert hour (count_hourly e (or_new (lookup hour s.hourly) (new_hourly hour))) s.hourly;
      }

  abbrev pub handle_event : ChainEvent → Store D → Store D
  handle_event (anchored e) s = handle_pot_anchored e s
  handle_event (swapped e) s = handle_swap_verified e s

  -- The store after some events, the last one first.
  unfoldable pub indexed : List ChainEvent → Store D
  indexed [] = empty_store
  indexed (e ∷ earlier) = handle_event e (indexed earlier)
