-- ===== src/HttpClient/Tests.antt =====
-- Runs of the HTTP-only client (src/http_client.ts) with simple functions for its environment.
use open_ttt.Prelude.{
  ℕ, ◌+◌, ◌*◌, ◌/◌, ◌≤◌, ◌≡◌, ◌≢◌, ◌↔◌, refl, true, false, Option, none, some, List, [], ◌∷◌, ◌++◌,
  Text, codes, ◌==◌, All, arith,
}
use open_ttt.ReplayCache.{NonceMap, register}
use open_ttt.TimeSynthesis.{Floats, TimeReading, source_readings_of}
use open_ttt.HttpClient.{HttpEnv, HttpPot, Options, valid, verify_pot, generate_pot}
use open_ttt.HttpClient.Check.{IsNear, IsSealed, verify_pot_iff}

abbrev test_env : HttpEnv
test_env = record {
  decimal = λ n. n ∷ [];
  hmac_hex = λ key message. key ++ message;
  from_hex = λ text. text;
}

abbrev test_options : Options
test_options = record { hmac_secret = codes "k"; tolerance_ns = 2000000000 }

abbrev test_floats : Floats ℕ
test_floats = record {
  mean = λ a b. (a + b) / 2;
  ratio = λ a b. a * 100 / b;
  is_not_positive = λ x. x == 0;
  to_ns = λ x. some (x * 1000000);
}

abbrev reading : ℕ → TimeReading ℕ
reading t = record { timestamp = t; uncertainty = 500; stratum = 2; source = codes "nist" }

abbrev test_answers : List (Option (TimeReading ℕ))
test_answers = some (reading 1004) ∷ none ∷ some (reading 1000) ∷ none ∷ []

abbrev test_pot : HttpPot ℕ
test_pot = record {
  timestamp = 1002;
  confidence = 50;
  stratum = 2;
  sources = 2;
  source_readings = source_readings_of (reading 1000 ∷ reading 1004 ∷ []);
  nonce = codes "n";
  expires_at = 60500;
  hmac = codes "k" ++ (1002 ∷ codes ":n:") ++ (60500 ∷ codes ":") ++ 2 ∷ [];
}

abbrev no_nonces : NonceMap
no_nonces = []

generated :
    generate_pot test_env test_options 60 (codes "n") 500 test_floats test_answers ≡ some test_pot
unfolding generate_pot open_ttt.TimeSynthesis.fulfilled open_ttt.TimeSynthesis.combine
    open_ttt.TimeSynthesis.sort_readings
generated = refl

nonce_new : (register 600 (codes "n") no_nonces).1 ≡ true
unfolding register open_ttt.Prelude.lookup open_ttt.ReplayCache.cleanup
nonce_new = refl

near : All (IsNear test_env test_options.tolerance_ns test_pot.timestamp) test_pot.source_readings
near = (omega arith, (omega arith, tt))

verify_pot_iff_example :
    ((verify_pot test_env test_options 600 600 test_pot no_nonces).1 ≡ valid) ↔ (
      (600 ≤ test_pot.expires_at)
      × IsSealed test_env test_options test_pot
      × ((register 600 test_pot.nonce no_nonces).1 ≡ true)
      × All (IsNear test_env test_options.tolerance_ns test_pot.timestamp) test_pot.source_readings)
verify_pot_iff_example = verify_pot_iff test_env test_options 600 600 test_pot no_nonces

accepted : (verify_pot test_env test_options 600 600 test_pot no_nonces).1 ≡ valid
unfolding verify_pot register open_ttt.Prelude.lookup open_ttt.ReplayCache.cleanup
accepted = refl

abbrev stripped_pot : HttpPot ℕ
stripped_pot = record {
  timestamp = test_pot.timestamp;
  confidence = 100;
  stratum = 1;
  sources = test_pot.sources;
  source_readings = [];
  nonce = test_pot.nonce;
  expires_at = test_pot.expires_at;
  hmac = test_pot.hmac;
}
