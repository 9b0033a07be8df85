-- ===== src/McpServer/Answers.antt =====
-- The tools that answer from the server's state: pot_verify, pot_query, pot_stats and pot_health
-- (mcp/tools.ts). Limits, times and counts are natural numbers.
use Prim.Native.Nat.{min}
use open_ttt.Prelude.{
  ℕ, ◌-◌, Bool, true, false, ◌&&◌, Option, none, some, List, [], ◌∷◌, map, Text, codes, length,
  drop, keep_if, ltb, leb, ◌==◌, if◌then◌else◌,
}
use open_ttt.AdaptiveSwitch.{AdaptiveMode, turbo, full}
use open_ttt.PotSigner.{verify_pot_signature}
use open_ttt.McpServer.{PotAnchorEntry, McpServer, McpEnv, telemetry_increment}

pub record SignatureArgs : Type 0 where
  pub issuer_pub_key : Text
  pub signature : Text
  pub issued_at : Text

pub record PotVerifyArgs : Type 0 where
  pub pot_hash : Text
  pub grg_shards : List Text
  pub chain_id : ℕ
  pub pool_address : Text
  pub signature : Option SignatureArgs

pub data Reason : Type 0 where
  hmac_failed signature_failed : Reason

pub record VerifyAnswer : Type 0 where
  pub valid : Bool
  pub reason : Option Reason
  pub mode : AdaptiveMode
  pub pot_hash : Text
  pub reconstructed_bytes : ℕ
  -- Of the HMAC and of Ed25519, if both were made.
  pub checks : Option (Bool × Bool)
  pub verified_at : ℕ

pub record PotQueryArgs : Type 0 where
  pub start_time : Option ℕ
  pub end_time : Option ℕ
  pub limit : Option ℕ

pub record QueryAnswer : Type 0 where
  pub local : List PotAnchorEntry
  pub total_local : ℕ
  pub start_time : ℕ
  pub end_time : ℕ
  pub limit : ℕ

pub data Period : Type 0 where
  day week month : Period

pub record StatsAnswer (F : Type 0) : Type 0 where
  pub period : Period
  pub total_swaps : ℕ
  pub turbo_count : ℕ
  pub full_count : ℕ
  pub turbo_ratio : F
  pub current_mode : AdaptiveMode

pub data TimeStatus : Type 0 where
  healthy degraded unhealthy : TimeStatus

pub record HealthAnswer : Type 0 where
  pub status : TimeStatus
  pub active_sources : ℕ
  pub pot_count : ℕ
  pub current_mode : AdaptiveMode

abbrev pub is_turbo : AdaptiveMode → Bool
is_turbo turbo = true
is_turbo full = false

abbrev pub is_full : AdaptiveMode → Bool
is_full turbo = false
is_full full = true

abbrev pub given : Option ℕ → ℕ → ℕ
given none d = d
given (some n) d = n

-- `slice(-n)`: with 0 it keeps everything.
unfoldable pub slice_last : ℕ → List PotAnchorEntry → List PotAnchorEntry
slice_last n es = if n == 0 then es else drop (length es - n) es

module _ {F : Type 0} (env : McpEnv F) where
  abbrev pub hmac_failure : PotVerifyArgs → AdaptiveMode → ℕ → VerifyAnswer
  hmac_failure args mode now_ms = record {
    valid = false;
    reason = some hmac_failed;
    mode = mode;
    pot_hash = args.pot_hash;
    reconstructed_bytes = 0;
    checks = none;
    verified_at = now_ms;
  }

  -- With the time of the signature, if it can be read.
  abbrev pub signature_valid : Text → SignatureArgs → Option ℕ → Option Bool
  signature_valid pot_hash a none = none
  signature_valid pot_hash a (some issued_at) = some (
      verify_pot_signature env.crypto pot_hash
        (record {
          issuer_pub_key = a.issuer_pub_key;
          signature = a.signature;
          issued_at = issued_at;
        })
        none)

  -- The check of the signature; `none` is a throw.
  abbrev pub ed25519_valid : Text → Option SignatureArgs → Option Bool
  ed25519_valid pot_hash none = some true
  ed25519_valid pot_hash (some a) = signature_valid pot_hash a (env.big_int a.issued_at)

  abbrev pub verify_answer :
      PotVerifyArgs → AdaptiveMode → ℕ → ℕ → Option Bool → Option VerifyAnswer
  verify_answer args mode now_ms size none = none
  verify_answer args mode now_ms size (some b) = some (record {
    valid = b;
    reason = if b then none else some signature_failed;
    mode = mode;
    pot_hash = args.pot_hash;
    reconstructed_bytes = size;
    checks = some (true, b);
    verified_at = now_ms;
  })

  -- With what the inverse of the pipeline gives.
  abbrev pub check_recovered : PotVerifyArgs → AdaptiveMode → ℕ → Option Text → Option VerifyAnswer
  check_recovered args mode now_ms none = some (hmac_failure args mode now_ms)
  check_recovered args mode now_ms (some []) = some (hmac_failure args mode now_ms)
  check_recovered args mode now_ms (some (b ∷ bs)) =
      verify_answer args mode now_ms (length (b ∷ bs)) (ed25519_valid args.pot_hash args.signature)

  -- `potVerify`.
  unfoldable pub pot_verify : PotVerifyArgs → ℕ → McpServer → McpServer × Option VerifyAnswer
  pot_verify args now_ms s = (
    telemetry_increment (codes "pot_verify") s,
    check_recovered args s.adaptive_switch.current_mode now_ms (
        env.process_inverse (map env.crypto.from_hex args.grg_shards) 0 args.chain_id
          args.pool_address),
  )

  -- `potQuery`, less the entries of the subgraph.
  unfoldable pub pot_query : PotQueryArgs → ℕ → McpServer → McpServer × QueryAnswer
  pot_query args now_ms s =
      let limit = min (given args.limit 100) 1000 in
      let start_time = given args.start_time (now_ms - 86400000) in
      let end_time = given args.end_time now_ms in
      (
        telemetry_increment (codes "pot_query") s,
        record {
          local =
              slice_last limit
                (keep_if (λ e. leb start_time e.created_at && leb e.created_at end_time) s.pot_log);
          total_local = length s.pot_log;
          start_time = start_time;
          end_time = end_time;
          limit = limit;
        },
      )

  abbrev pub period_ms : Period → ℕ
  period_ms day = 86400000
  period_ms week = 604800000
  period_ms month = 2592000000

  -- `potStats`.
  unfoldable pub pot_stats : Period → ℕ → McpServer → McpServer × StatsAnswer F
  pot_stats period now_ms s =
      let entries = keep_if (λ e. leb (now_ms - period_ms period) e.created_at) s.pot_log in
      let turbo_count = length (keep_if (λ e. is_turbo e.mode) entries) in
      (
        telemetry_increment (codes "pot_stats") s,
        record {
          period = period;
          total_swaps = length entries;
          turbo_count = turbo_count;
          full_count = length (keep_if (λ e. is_full e.mode) entries);
          turbo_ratio =
              if ltb 0 (length entries)
              then env.ratio4 turbo_count (length entries)
              else env.zero_ratio;
          current_mode = s.adaptive_switch.current_mode;
        },
      )

  abbrev pub time_status : Option ℕ → TimeStatus × ℕ
  time_status none = (unhealthy, 0)
  time_status (some sources) = (if leb 2 sources then healthy else degraded, sources)

  -- `potHealth`, from the number of sources of a synthesis, `none` if it failed or took too long; less
  -- what the subgraph answers and the time of the start.
  unfoldable pub pot_health : Option ℕ → McpServer → McpServer × HealthAnswer
  pot_health synthesized s =
      let (status, sources) = time_status synthesized in
      (
        telemetry_increment (codes "pot_health") s,
        record {
          status = status;
          active_sources = sources;
          pot_count = length s.pot_log;
          current_mode = s.adaptive_switch.current_mode;
        },
      )
