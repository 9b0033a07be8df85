-- ===== src/HttpClient.antt =====
-- The HTTP-only client (src/http_client.ts): a proof of time from the Date headers of four servers,
-- with an HMAC over some of its fields. Timestamps are whole nanoseconds; the HMAC, its hex form
-- and the random nonce are parameters, and what a server answers is `none` for a failure.
pub mod Check
mod Tests
use Prim.Native.Nat.{min}
use open_ttt.Prelude.{
  ℕ, ◌+◌, ◌-◌, ◌*◌, ◌/◌, Bool, true, false, not, Option, none, some, List, [], ◌∷◌, ◌++◌, map, Text,
  length, codes, text_eq, ltb, leb, ◌==◌, if◌then◌else◌,
}
use open_ttt.ReplayCache.{NonceMap, register}
use open_ttt.TimeSynthesis.{
  Floats, TimeReading, SourceReading, ProofOfTime, Combined, fulfilled, sort_readings, middle,
  abs_diff, source_readings_of,
}
use open_ttt.TimeSynthesis.{combine}

pub record HttpPot (F : Type 0) : Type 0 where
  pub timestamp : ℕ
  pub confidence : F
  pub stratum : ℕ
  pub sources : ℕ
  pub source_readings : List (SourceReading F)
  pub nonce : Text
  pub expires_at : ℕ
  pub hmac : Text

pub data Verdict : Type 0 where
  valid expired hmac_mismatch duplicate_nonce diverges : Verdict
  -- `timingSafeEqual` throws on operands of different lengths.
  thrown : Verdict

-- What the client takes from its environment.
pub record HttpEnv : Type 0 where
  -- `toString()` of a number.
  pub decimal : ℕ → Text
  -- HMAC-SHA256 in hex, of a key and a message.
  pub hmac_hex : Text → Text → Text
  -- `Buffer.from(text, "hex")`.
  pub from_hex : Text → Text

-- The two options that verification reads.
pub record Options : Type 0 where
  pub hmac_secret : Text
  pub tolerance_ns : ℕ

abbrev pub source_count : ℕ
source_count = 4

module _ (env : HttpEnv) where
  -- The text that the HMAC is taken of.
  unfoldable pub canonical_message : ℕ → Text → ℕ → ℕ → Text
  canonical_message timestamp nonce expires_at sources =
      env.decimal timestamp
      ++ (codes ":"
          ++ (nonce
              ++ (codes ":" ++ (env.decimal expires_at ++ (codes ":" ++ env.decimal sources)))))

  unfoldable pub compute_hmac : ℕ → Text → ℕ → ℕ → Text → Text
  unfolding canonical_message
  compute_hmac timestamp nonce expires_at sources secret =
      env.hmac_hex secret (canonical_message timestamp nonce expires_at sources)

  module _ {F : Type 0} where
    -- The loop over the readings.
    unfoldable pub check_divergence : ℕ → ℕ → List (SourceReading F) → Verdict
    check_divergence tolerance_ns timestamp [] = valid
    check_divergence tolerance_ns timestamp (r ∷ rs) =
        let rest = check_divergence tolerance_ns timestamp rs in
        if ltb tolerance_ns (abs_diff r.timestamp timestamp) then diverges else rest

    unfoldable pub check_nonce : Options → ℕ → HttpPot F → NonceMap → NonceMap × Verdict
    unfolding check_divergence
    check_nonce options now_ms pot nonces =
        let (nonces', new) = register now_ms pot.nonce nonces in
        if new
        then (nonces', check_divergence options.tolerance_ns pot.timestamp pot.source_readings)
        else (nonces', duplicate_nonce)

    -- `verifyPoT`; the clock is read twice.
    unfoldable pub verify_pot : Options → ℕ → ℕ → HttpPot F → NonceMap → NonceMap × Verdict
    unfolding check_nonce compute_hmac
    verify_pot options first_ms now_ms pot nonces =
        if ltb pot.expires_at first_ms
        then (nonces, expired)
        else let expected =
            env.from_hex (
              compute_hmac pot.timestamp pot.nonce pot.expires_at pot.sources
                options.hmac_secret) in
          let given = env.from_hex pot.hmac in
          if not (length expected == length given)
          then (nonces, thrown)
          else if not (text_eq expected given)
          then (nonces, hmac_mismatch)
          else check_nonce options now_ms pot nonces

    unfoldable pub make_http_pot :
        Options → ℕ → Text → ℕ → Floats F → List (TimeReading F) → Combined F → HttpPot F
    unfolding compute_hmac
    make_http_pot options expiry_seconds nonce now_ms floats readings m =
        let expires_at = now_ms + expiry_seconds * 1000 in
        record {
          timestamp = m.timestamp;
          confidence = floats.ratio (length readings) source_count;
          stratum = m.stratum;
          sources = length readings;
          source_readings = source_readings_of readings;
          nonce = nonce;
          expires_at = expires_at;
          hmac = compute_hmac m.timestamp nonce expires_at (length readings) options.hmac_secret;
        }

    abbrev make_each : (Combined F → HttpPot F) → Option (Combined F) → Option (HttpPot F)
    make_each make none = none
    make_each make (some m) = some (make m)

    -- `generatePoT`; `none` is the error for no answer at all.
    unfoldable pub generate_pot :
        Options → ℕ → Text → ℕ → Floats F → List (Option (TimeReading F)) → Option (HttpPot F)
    unfolding make_http_pot
    generate_pot options expiry_seconds nonce now_ms floats results =
        let readings = sort_readings (fulfilled results) in
        if length (fulfilled results) == 0
        then none
        else make_each (make_http_pot options expiry_seconds nonce now_ms floats readings)
            (combine floats readings)

    -- `toProofOfTime`, with the mean of some uncertainties and the constant 500 as parameters.
    unfoldable pub to_proof_of_time : (List F → F) → F → HttpPot F → ProofOfTime F
    to_proof_of_time average five_hundred pot = record {
      timestamp = pot.timestamp;
      uncertainty =
          if ltb 0 (length pot.source_readings)
          then average (map (λ r. r.uncertainty) pot.source_readings)
          else five_hundred;
      sources = pot.sources;
      stratum = pot.stratum;
      confidence = pot.confidence;
      source_readings = pot.source_readings;
      nonce = pot.nonce;
      expires_at = pot.expires_at;
    }
