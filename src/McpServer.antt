-- ===== src/McpServer.antt =====
-- The MCP server (mcp/tools.ts, mcp/telemetry.ts, mcp/index.ts): the state that its tools share and
-- what they take from elsewhere. The integrity pipeline, ethers, text encodings and clocks are
-- parameters; requests to the subgraph are left out but for what they answer.
mod Generate
mod Answers
mod Dispatch
pub mod Verify
pub mod Log
pub mod Statistics
mod Tests
use open_ttt.Prelude.{ℕ, ◌+◌, Option, none, some, List, [], Text, Dict, lookup, insert}
use open_ttt.ReplayCache.{NonceMap}
use open_ttt.TimeSynthesis.{Floats, ProofOfTime}
use open_ttt.AdaptiveSwitch.{AdaptiveMode, AdaptiveSwitch, new}
use open_ttt.PotSigner.{SignerCrypto}

pub record PotAnchorEntry : Type 0 where
  pub pot_hash : Text
  pub timestamp : Text
  pub stratum : ℕ
  pub mode : AdaptiveMode
  pub chain_id : ℕ
  pub pool_address : Text
  pub created_at : ℕ

-- The instances and variables of the two modules.
pub record McpServer : Type 0 where
  pub nonces : NonceMap
  pub adaptive_switch : AdaptiveSwitch
  pub pot_log : List PotAnchorEntry
  pub counters : Dict ℕ

pub record McpEnv (F : Type 0) : Type 1 where
  pub floats : Floats F
  pub decimal : ℕ → Text
  -- `none` is a throw, here and below.
  pub on_chain_hash : ProofOfTime F → Option Text
  pub utf8 : Text → Text
  pub big_int : Text → Option ℕ
  pub process_forward : Text → ℕ → Text → Option (List Text)
  pub process_inverse : List Text → ℕ → ℕ → Text → Option Text
  pub crypto : SignerCrypto
  pub key : crypto.PrivateKey
  -- The ratio of two counts with four decimals.
  pub ratio4 : ℕ → ℕ → F
  pub zero_ratio : F

abbrev pub pot_log_max : ℕ
pot_log_max = 10000

abbrev pub started : McpServer
started = record { nonces = []; adaptive_switch = new none; pot_log = []; counters = [] }

abbrev next_count : Option ℕ → ℕ
next_count none = 1
next_count (some n) = n + 1

-- `telemetryIncrement`, of which the answer to its request is thrown away.
unfoldable pub telemetry_increment : Text → McpServer → McpServer
telemetry_increment tool s = record s {
  counters = insert tool (next_count (lookup tool s.counters)) s.counters;
}
