-- ===== src/McpServer/Tests.antt =====
-- Runs of the MCP server (mcp/tools.ts) with simple functions for its environment.
use open_ttt.Prelude.{
  ℕ, ◌+◌, ◌*◌, ◌/◌, ◌≤◌, ◌≡◌, ◌↔◌, refl, true, Option, none, some, List, [], ◌∷◌, ◌++◌, map, Text,
  codes, last, text_eq, ◌==◌, lookup, insert,
}
use open_ttt.ReplayCache.{register, cleanup, evict}
use open_ttt.AdaptiveSwitch.{full, new}
use open_ttt.TimeSynthesis.{
  TimeReading, fulfilled, sort_readings, combine, middle, verify_proof_of_time, check_readings,
  get_tolerance_for_stratum, lowest_stratum, generate_proof_of_time,
}
use open_ttt.PotSigner.{SignerCrypto, verify_pot_signature, strip_prefix}
use open_ttt.McpServer.{McpEnv, started, telemetry_increment}
use open_ttt.McpServer.Generate.{PotGenerateArgs, GenerateInput, pot_generate, push_log}
use open_ttt.McpServer.Answers.{PotVerifyArgs, day, pot_verify, pot_stats}
use open_ttt.McpServer.Dispatch.{
  Call, generate_call, verify_call, stats_call, handle_call, run, responses,
}
use open_ttt.McpServer.Verify.{IsUnsignedOrSigned, is_valid, pot_verify_iff}
use open_ttt.McpServer.Log.{hashes, handed_out, run-started}
use open_ttt.McpServer.Statistics.{pot_stats-run}

abbrev test_crypto : SignerCrypto
test_crypto = record {
  PrivateKey = Text;
  PublicKey = Text;
  from_hex = λ h. h;
  to_hex = λ b. b;
  sign = λ m k. k ++ m;
  create_public_key = λ b. some b;
  verify = λ m k s. some (text_eq s (k ++ m));
  exported = λ k. k;
}

abbrev first_shard : List Text → Option Text
first_shard [] = none
first_shard (t ∷ ts) = some t

abbrev test_env : McpEnv ℕ
test_env = record {
  floats = record {
    mean = λ a b. (a + b) / 2;
    ratio = λ a b. a * 100 / b;
    is_not_positive = λ x. x == 0;
    to_ns = λ x. some (x * 1000000);
  };
  decimal = λ n. n ∷ [];
  on_chain_hash = λ pot. some pot.nonce;
  utf8 = λ t. t;
  big_int = λ t. some 5;
  process_forward = λ tx chain pool. some (tx ∷ []);
  process_inverse = λ shards i chain pool. first_shard shards;
  crypto = test_crypto;
  key = codes "k";
  ratio4 = λ a b. a * 10000 / b;
  zero_ratio = 0;
}

abbrev test_args : PotGenerateArgs
test_args = record { tx_hash = codes "t"; chain_id = 1; pool_address = codes "p" }

abbrev reading : ℕ → TimeReading ℕ
reading t = record { timestamp = t; uncertainty = 10; stratum = 1; source = codes "nist" }

abbrev input_of : Text → GenerateInput ℕ
input_of nonce = record {
  results = some (reading 1004) ∷ none ∷ some (reading 1000) ∷ some (reading 1002) ∷ [];
  nonce = nonce;
  issued_ms = 500;
  verified_ms = 500;
  signed_ms = 501;
  created_ms = 502;
}

-- The data is its own shard, and so is the signature for another key.
abbrev verify_args : PotVerifyArgs
verify_args = record {
  pot_hash = codes "m";
  grg_shards = codes "t" ∷ [];
  chain_id = 1;
  pool_address = codes "p";
  signature =
      some (record { issuer_pub_key = codes "k"; signature = codes "km"; issued_at = codes "5" });
}

abbrev test_calls : List (Call ℕ)
test_calls =
    generate_call test_args (input_of (codes "n"))
    ∷ verify_call verify_args 600
    ∷ generate_call test_args (input_of (codes "n"))
    ∷ stats_call day 700
    ∷ generate_call test_args (input_of (codes "m"))
    ∷ []

run-started_example :
    hashes (run test_env test_calls started).pot_log
    ≡ last 10000 (handed_out (responses test_env test_calls started))
run-started_example = run-started test_env test_calls

-- The second proof with the nonce of the first one is not made.
two_logged : hashes (run test_env test_calls started).pot_log ≡ codes "n" ∷ codes "m" ∷ []
unfolding handle_call pot_generate pot_verify pot_stats telemetry_increment push_log new
    generate_proof_of_time fulfilled combine sort_readings middle verify_proof_of_time register
    lookup cleanup check_readings get_tolerance_for_stratum lowest_stratum insert evict
two_logged = refl

pot_stats-run_example :
    ((pot_stats test_env day 700 (run test_env test_calls started)).1.turbo_count ≡ 0)
    × ((pot_stats test_env day 700 (run test_env test_calls started)).1.full_count
        ≡ (pot_stats test_env day 700 (run test_env test_calls started)).1.total_swaps)
    × ((pot_stats test_env day 700 (run test_env test_calls started)).1.total_swaps ≤ 10000)
    × ((pot_stats test_env day 700 (run test_env test_calls started)).1.current_mode ≡ full)
pot_stats-run_example = pot_stats-run test_env test_calls day 700

pot_verify_iff_example : (is_valid (pot_verify test_env verify_args 600 started).1 ≡ true) ↔ (
    (b : ℕ) × (bs : Text) × (test_env.process_inverse
        (map test_env.crypto.from_hex verify_args.grg_shards)
        0
        verify_args.chain_id
        verify_args.pool_address
      ≡ some (b ∷ bs))
    × IsUnsignedOrSigned test_env verify_args.pot_hash verify_args.signature)
pot_verify_iff_example = pot_verify_iff test_env verify_args 600 started

signed_verifies : is_valid (pot_verify test_env verify_args 600 started).1 ≡ true
unfolding pot_verify verify_pot_signature strip_prefix
signed_verifies = refl
