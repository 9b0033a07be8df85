-- ===== src/PaymentFacilitator.antt =====
-- The facilitator of x402 payments (mcp/packages/x402-pot/src/index.ts), which attaches a proof of
-- time of the HTTP-only client to a payment and checks it again. `BigInt` of a text is a parameter,
-- `none` where it throws; a text of a negative number is left out. `none` for `extra` stands for a
-- payment without `extra` or without `pot` in it.
mod Check
mod Tests
use open_ttt.Prelude.{ℕ, Option, none, some, List, map, Text}
use open_ttt.ReplayCache.{NonceMap}
use open_ttt.TimeSynthesis.{Floats, TimeReading, SourceReading}
use open_ttt.HttpClient.{HttpEnv, HttpPot, Options, Verdict, verify_pot, generate_pot}

pub record X402BasePayment : Type 0 where
  pub scheme : Text
  pub network : Text
  pub max_amount_required : Text
  pub resource : Text

pub record PotFields (F : Type 0) : Type 0 where
  pub timestamp : Text
  pub expires_at : Text
  pub hmac : Text
  pub nonce : Text
  pub confidence : F
  pub sources : ℕ
  pub source_names : List Text

pub record X402PotPayment (F : Type 0) : Type 0 where
  pub payment : X402BasePayment
  pub extra : Option (PotFields F)

pub data X402PotVerifyResult : Type 0 where
  no_pot invalid_numbers : X402PotVerifyResult
  answer : Verdict → X402PotVerifyResult

module _ (env : HttpEnv) (big_int : Text → Option ℕ) {F : Type 0} (five_hundred : F) where
  abbrev pub fields_of : HttpPot F → PotFields F
  fields_of pot = record {
    timestamp = env.decimal pot.timestamp;
    expires_at = env.decimal pot.expires_at;
    hmac = pot.hmac;
    nonce = pot.nonce;
    confidence = pot.confidence;
    sources = pot.sources;
    source_names = map (λ r. r.source) pot.source_readings;
  }

  abbrev pub attach : X402BasePayment → Option (HttpPot F) → Option (X402PotPayment F)
  attach payment none = none
  attach payment (some pot) = some (record { payment = payment; extra = some (fields_of pot) })

  -- `createPaymentWithPoT`; `none` is the throw of the client.
  unfoldable pub create_payment_with_pot :
      Options
      → ℕ
      → Text
      → ℕ
      → Floats F
      → List (Option (TimeReading F))
      → X402BasePayment
      → Option (X402PotPayment F)
  create_payment_with_pot options expiry_seconds nonce now_ms floats results payment =
      attach payment (generate_pot env options expiry_seconds nonce now_ms floats results)

  -- A reading is not kept but for its name: it gets the synthesized time.
  abbrev pub reading_of : ℕ → Text → SourceReading F
  reading_of timestamp name = record {
    source = name;
    timestamp = timestamp;
    uncertainty = five_hundred;
    stratum = some 2;
  }

  abbrev pub reconstructed : PotFields F → ℕ → ℕ → HttpPot F
  reconstructed p timestamp expires_at = record {
    timestamp = timestamp;
    confidence = p.confidence;
    stratum = 2;
    sources = p.sources;
    source_readings = map (reading_of timestamp) p.source_names;
    nonce = p.nonce;
    expires_at = expires_at;
    hmac = p.hmac;
  }

  abbrev pub answered : NonceMap × Verdict → NonceMap × X402PotVerifyResult
  answered (nonces, verdict) = (nonces, answer verdict)

  -- With the numbers, if they can be read.
  abbrev pub verify_fields :
      Options
      → ℕ
      → ℕ
      → PotFields F
      → Option ℕ
      → Option ℕ
      → NonceMap
      → NonceMap × X402PotVerifyResult
  verify_fields options first_ms now_ms p none e nonces = (nonces, invalid_numbers)
  verify_fields options first_ms now_ms p (some t) none nonces = (nonces, invalid_numbers)
  verify_fields options first_ms now_ms p (some t) (some e) nonces =
      answered (verify_pot env options first_ms now_ms (reconstructed p t e) nonces)

  abbrev pub verify_extra :
      Options → ℕ → ℕ → Option (PotFields F) → NonceMap → NonceMap × X402PotVerifyResult
  verify_extra options first_ms now_ms none nonces = (nonces, no_pot)
  verify_extra options first_ms now_ms (some p) nonces =
      verify_fields options first_ms now_ms p (big_int p.timestamp) (big_int p.expires_at) nonces

  -- `verifyPaymentPoT`, on the nonces of the facilitator's client.
  unfoldable pub verify_payment_pot :
      Options → ℕ → ℕ → X402PotPayment F → NonceMap → NonceMap × X402PotVerifyResult
  verify_payment_pot options first_ms now_ms payment nonces =
      verify_extra options first_ms now_ms payment.extra nonces
