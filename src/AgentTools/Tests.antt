-- ===== src/AgentTools/Tests.antt =====
-- A run of the tools for language models (integrations/openai/ttt_function.ts).
use open_ttt.Prelude.{
  ℕ, ◌+◌, ◌*◌, ◌/◌, ◌≡◌, refl, true, false, Option, none, some, List, [], ◌∷◌, Text, codes, ◌==◌,
  arith, is_some, lookup,
}
use open_ttt.ReplayCache.{register, cleanup}
use open_ttt.TimeSynthesis.{
  Floats, TimeReading, fulfilled, sort_readings, combine, synthesize, verify_proof_of_time,
  generate_proof_of_time,
}
use open_ttt.AgentTools.{
  VerifyPotArgs, VerifyPotResult, ToolEnv, call, handle_verify_proof_of_time, never_verified,
}

abbrev test_env : ToolEnv ℕ
test_env = record {
  floats = record {
    mean = λ a b. (a + b) / 2;
    ratio = λ a b. a * 100 / b;
    is_not_positive = λ x. x == 0;
    to_ns = λ x. some (x * 1000000);
  };
  decimal = λ n. n ∷ [];
  on_chain_hash = λ pot. some (codes "0xh");
  error_text = λ e. codes "error";
  hash_error = codes "hash";
}

abbrev test_args : VerifyPotArgs
test_args = record { tx_hash = codes "0x1"; chain_id = 8453; pool_address = codes "0x2" }

abbrev reading : ℕ → TimeReading ℕ
reading t = record { timestamp = t; uncertainty = 10; stratum = 1; source = codes "nist" }

abbrev test_answers : List (Option (TimeReading ℕ))
test_answers = some (reading 1004) ∷ none ∷ some (reading 1000) ∷ some (reading 1002) ∷ []

never_verified_example :
    ((call test_env test_args test_answers (codes "n") 500 500 501 []).1.verified ≡ false)
    × ((handle_verify_proof_of_time test_env test_args test_answers
          (codes "n")
          500
          500
          501).verified
        ≡ false)
never_verified_example =
    never_verified test_env test_args test_answers (codes "n") 500 500 501 [] (omega arith)

-- The proof itself was made: it comes with the answer, and without an error.
abbrev test_result : VerifyPotResult ℕ
test_result = handle_verify_proof_of_time test_env test_args test_answers (codes "n") 500 500 501

proof_made : (is_some test_result.proof ≡ true) × (test_result.error ≡ none)
unfolding handle_verify_proof_of_time call generate_proof_of_time fulfilled combine sort_readings
    open_ttt.TimeSynthesis.middle verify_proof_of_time register lookup cleanup
    open_ttt.TimeSynthesis.check_readings open_ttt.TimeSynthesis.get_tolerance_for_stratum
    open_ttt.TimeSynthesis.lowest_stratum open_ttt.Prelude.insert open_ttt.ReplayCache.evict
proof_made = (refl, refl)
