-- ===== src/PaymentFacilitator/Tests.antt =====
-- A payment with a proof of time, created and checked (mcp/packages/x402-pot/src/index.ts).
use open_ttt.Prelude.{
  ℕ, ◌+◌, ◌*◌, ◌/◌, ◌≡◌, refl, true, Option, none, some, List, [], ◌∷◌, ◌++◌, Text, codes, ◌==◌,
  arith, lookup,
}
use open_ttt.ReplayCache.{register, cleanup}
use open_ttt.TimeSynthesis.{Floats, TimeReading, fulfilled, sort_readings, combine}
use open_ttt.HttpClient.{HttpEnv, Options, valid, generate_pot}
use open_ttt.PaymentFacilitator.{
  X402BasePayment, X402PotPayment, answer, create_payment_with_pot, verify_payment_pot,
}
use open_ttt.PaymentFacilitator.Check.{verify-create_payment}

abbrev test_env : HttpEnv
test_env = record {
  decimal = λ n. n ∷ [];
  hmac_hex = λ key message. key ++ message;
  from_hex = λ text. text;
}

abbrev first_code : Text → Option ℕ
first_code [] = none
first_code (n ∷ ns) = some n

abbrev test_options : Options
test_options = record { hmac_secret = codes "k"; tolerance_ns = 2000000000 }

abbrev test_floats : Floats ℕ
test_floats = record {
  mean = λ a b. (a + b) / 2;
  ratio = λ a b. a * 100 / b;
  is_not_positive = λ x. x == 0;
  to_ns = λ x. some (x * 1000000);
}

abbrev reading : ℕ → TimeReading ℕ
reading t = record { timestamp = t; uncertainty = 500; stratum = 2; source = codes "nist" }

-- The second source is far from the first one.
abbrev test_answers : List (Option (TimeReading ℕ))
test_answers = some (reading 9000000000) ∷ none ∷ some (reading 1000) ∷ none ∷ []

abbrev test_payment : X402BasePayment
test_payment = record {
  scheme = codes "exact";
  network = codes "base";
  max_amount_required = codes "1";
  resource = codes "/r";
}

abbrev paid : X402PotPayment ℕ
paid = record {
  payment = test_payment;
  extra = some (record {
    timestamp = 4500000500 ∷ [];
    expires_at = 60500 ∷ [];
    hmac = codes "k" ++ (4500000500 ∷ codes ":n:") ++ (60500 ∷ codes ":") ++ 2 ∷ [];
    nonce = codes "n";
    confidence = 50;
    sources = 2;
    source_names = codes "nist" ∷ codes "nist" ∷ [];
  });
}

created :
    create_payment_with_pot test_env first_code 500 test_options 60
      (codes "n")
      500
      test_floats
      test_answers
      test_payment
    ≡ some paid
unfolding create_payment_with_pot generate_pot fulfilled combine sort_readings
created = refl

nonce_new : (register 600 (codes "n") []).1 ≡ true
unfolding register lookup cleanup
nonce_new = refl

verify-create_payment_example :
    (verify_payment_pot test_env first_code 500 test_options 600 600 paid []).1 ≡ answer valid
verify-create_payment_example =
    verify-create_payment test_env first_code 500 test_options 60 (codes "n") 500 600 600
      test_floats test_answers test_payment paid [] (λ n. refl) created (omega arith) nonce_new
