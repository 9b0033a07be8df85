-- ===== src/TimeSynthesis/Tests.antt =====
-- Runs of the time synthesis (src/time_synthesis.ts), with whole numbers for the floating-point ones.
use open_ttt.Prelude.{
  ℕ, ◌+◌, ◌-◌, ◌*◌, ◌/◌, ◌≤◌, ◌<◌, ◌≡◌, ◌↔◌, ◌⊎◌, refl, true, false, Bool, Option, none, some, List,
  [], ◌∷◌, Text, codes, length, count_if, ◌==◌, All, arith, lookup,
}
use open_ttt.ReplayCache.{NonceMap, cleanup, register}
use open_ttt.ReplayCache.Bounds.{IsBounded}
use open_ttt.TimeSynthesis.{
  Floats, TimeReading, SynthesizedTime, ProofOfTime, Combined, Result, ok, err, all_sources_failed,
  accepted, rejected, fulfilled, sort_readings, combine, synthesize, verify_proof_of_time,
  generate_proof_of_time, source_readings_of,
}
use open_ttt.TimeSynthesis.Median.{in_range}
use open_ttt.TimeSynthesis.Readings.{IsWithin, floor_of}
use open_ttt.TimeSynthesis.Verify.{verify_iff, verify_all, replay_rejected}
use open_ttt.TimeSynthesis.Generate.{generate_in_range}

-- Whole milliseconds and percents.
abbrev test_floats : Floats ℕ
test_floats = record {
  mean = λ a b. (a + b) / 2;
  ratio = λ a b. a * 100 / b;
  is_not_positive = λ x. x == 0;
  to_ns = λ x. some (x * 1000000);
}

abbrev reading : ℕ → TimeReading ℕ
reading t = record { timestamp = t; uncertainty = 10; stratum = 1; source = codes "nist" }

abbrev test_answers : List (Option (TimeReading ℕ))
test_answers = some (reading 1004) ∷ none ∷ some (reading 1000) ∷ some (reading 1002) ∷ []

abbrev test_readings : List (TimeReading ℕ)
test_readings = reading 1004 ∷ reading 1000 ∷ reading 1002 ∷ []

abbrev test_combined : Combined ℕ
test_combined = record { timestamp = 1002; uncertainty = 10; stratum = 1 }

abbrev test_time : SynthesizedTime ℕ
test_time = record { timestamp = 1002; confidence = 75; uncertainty = 10; sources = 3; stratum = 1 }

abbrev test_pot : ProofOfTime ℕ
test_pot = record {
  timestamp = 1002;
  uncertainty = 10;
  sources = 3;
  stratum = 1;
  confidence = 75;
  source_readings = source_readings_of (reading 1000 ∷ reading 1002 ∷ reading 1004 ∷ []);
  nonce = codes "n";
  expires_at = 60500;
}

abbrev no_nonces : NonceMap
no_nonces = []

abbrev used_nonce : NonceMap
used_nonce = (codes "n", 500) ∷ []

no_nonces-IsBounded : IsBounded no_nonces
no_nonces-IsBounded = record { size = omega arith; unique = tt }

synthesized : synthesize test_floats test_answers ≡ ok test_time
unfolding synthesize fulfilled combine sort_readings open_ttt.TimeSynthesis.middle
synthesized = refl

most_in_range :
    length (fulfilled test_answers) < 2 * count_if (in_range 1000 1003) (fulfilled test_answers)
unfolding fulfilled
most_in_range = omega arith

verify_iff_example : ((verify_proof_of_time test_floats 600 test_pot no_nonces).1 ≡ accepted) ↔ (
    (0 < length test_pot.source_readings)
    × (test_floats.is_not_positive test_pot.confidence ≡ false)
    × (600 ≤ test_pot.expires_at)
    × ((register 600 test_pot.nonce no_nonces).1 ≡ true)
    × All
        (IsWithin test_floats (floor_of test_floats test_pot) test_pot.timestamp)
        test_pot.source_readings)
verify_iff_example = verify_iff test_floats 600 test_pot no_nonces

verified : (verify_proof_of_time test_floats 600 test_pot no_nonces).1 ≡ accepted
unfolding verify_proof_of_time register lookup cleanup open_ttt.TimeSynthesis.check_readings
    open_ttt.TimeSynthesis.get_tolerance_for_stratum open_ttt.TimeSynthesis.lowest_stratum
verified = refl

replay_rejected_example :
    (verify_proof_of_time test_floats 700 test_pot (
      verify_all test_floats
        ((650, test_pot) ∷ [])
        (verify_proof_of_time test_floats 600 test_pot no_nonces).0)).1
    ≡ rejected
replay_rejected_example =
    replay_rejected test_floats 600 700 test_pot test_pot ((650, test_pot) ∷ []) no_nonces verified
      (omega arith, tt) (omega arith) refl (omega arith)

generated :
    generate_proof_of_time test_floats test_answers (codes "n") 500 500 no_nonces
    ≡ (used_nonce, ok test_pot)
unfolding generate_proof_of_time fulfilled combine sort_readings open_ttt.TimeSynthesis.middle
    verify_proof_of_time register lookup cleanup open_ttt.TimeSynthesis.check_readings
    open_ttt.TimeSynthesis.get_tolerance_for_stratum open_ttt.TimeSynthesis.lowest_stratum
    open_ttt.Prelude.insert open_ttt.ReplayCache.evict
generated = refl

generate_in_range_example : (1000 ≤ test_pot.timestamp) × (test_pot.timestamp ≤ 1003)
generate_in_range_example =
    generate_in_range test_floats test_answers (codes "n") 500 500 no_nonces used_nonce test_pot
      1000 1003 generated most_in_range
