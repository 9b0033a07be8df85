-- ===== src/AgentTools.antt =====
-- The tools that language models call for a proof of time: handleVerifyProofOfTime
-- (integrations/openai/ttt_function.ts) on an instance of its own for each call, and
-- VerifyProofOfTimeTool (integrations/langchain/ttt_pot_tool.ts) on one instance for all calls. The
-- on-chain hash, decimal text and the texts of errors are parameters; `none` is a throw.
mod Tests
use open_ttt.Prelude.{
  ℕ, ◌≤◌, ◌≡◌, refl, Bool, true, false, Option, none, some, List, [], ◌∷◌, map, Text, arith,
}
use open_ttt.ReplayCache.{NonceMap}
use open_ttt.TimeSynthesis.{
  Floats, TimeReading, SourceReading, ProofOfTime, SynthesisError, range_error, Result, ok, err,
  Verdict, accepted, rejected, thrown, verify_proof_of_time, generate_proof_of_time,
}
use open_ttt.TimeSynthesis.Generate.{verify-generate_rejected}

pub record VerifyPotArgs : Type 0 where
  pub tx_hash : Text
  pub chain_id : ℕ
  pub pool_address : Text

pub record Proof (F : Type 0) : Type 0 where
  pub timestamp : Text
  pub uncertainty_ms : F
  pub sources : ℕ
  pub stratum : ℕ
  pub confidence : F
  pub nonce : Text
  pub expires_at : Text
  pub on_chain_hash : Text

pub record ReadingText (F : Type 0) : Type 0 where
  pub source : Text
  pub timestamp : Text
  pub uncertainty_ms : F

pub record VerifyPotResult (F : Type 0) : Type 0 where
  pub verified : Bool
  pub args : VerifyPotArgs
  pub proof : Option (Proof F)
  pub source_readings : List (ReadingText F)
  pub error : Option Text

pub record ToolEnv (F : Type 0) : Type 0 where
  pub floats : Floats F
  pub decimal : ℕ → Text
  pub on_chain_hash : ProofOfTime F → Option Text
  pub error_text : SynthesisError → Text
  pub hash_error : Text

abbrev pub is_accepted : Verdict → Bool
is_accepted accepted = true
is_accepted v = false

module _ {F : Type 0} (env : ToolEnv F) where
  -- The `catch` block.
  abbrev pub failed : VerifyPotArgs → Text → VerifyPotResult F
  failed args message = record {
    verified = false;
    args = args;
    proof = none;
    source_readings = [];
    error = some message;
  }

  abbrev reading_text : SourceReading F → ReadingText F
  reading_text r = record {
    source = r.source;
    timestamp = env.decimal r.timestamp;
    uncertainty_ms = r.uncertainty;
  }

  -- With the answer of `verifyProofOfTime` and the on-chain hash.
  abbrev pub answered : VerifyPotArgs → ProofOfTime F → Verdict → Option Text → VerifyPotResult F
  answered args pot thrown hash = failed args (env.error_text range_error)
  answered args pot v none = failed args env.hash_error
  answered args pot v (some hash) = record {
    verified = is_accepted v;
    args = args;
    proof = some (record {
      timestamp = env.decimal pot.timestamp;
      uncertainty_ms = pot.uncertainty;
      sources = pot.sources;
      stratum = pot.stratum;
      confidence = pot.confidence;
      nonce = pot.nonce;
      expires_at = env.decimal pot.expires_at;
      on_chain_hash = hash;
    });
    source_readings = map reading_text pot.source_readings;
    error = none;
  }

  -- What follows the generation, with the clock's time when the proof is verified.
  abbrev pub checked :
      VerifyPotArgs → ℕ → NonceMap × Result (ProofOfTime F) → NonceMap × VerifyPotResult F
  checked args now_ms (nonces, err e) = (nonces, failed args (env.error_text e))
  checked args now_ms (nonces, ok pot) =
      let (nonces', verdict) = verify_proof_of_time env.floats now_ms pot nonces in
      (nonces', answered args pot verdict (env.on_chain_hash pot))

  -- `_call` of the LangChain tool, on the nonces of its instance: what the sources answered, the
  -- nonce, and the clock when the proof is stamped, verified by its maker and verified again.
  unfoldable pub call :
      VerifyPotArgs
      → List (Option (TimeReading F))
      → Text
      → ℕ
      → ℕ
      → ℕ
      → NonceMap
      → NonceMap × VerifyPotResult F
  call args results nonce issued_ms self_ms now_ms nonces =
      checked args now_ms (generate_proof_of_time env.floats results nonce issued_ms self_ms nonces)

  -- `handleVerifyProofOfTime`, on a new instance.
  unfoldable pub handle_verify_proof_of_time :
      VerifyPotArgs → List (Option (TimeReading F)) → Text → ℕ → ℕ → ℕ → VerifyPotResult F
  handle_verify_proof_of_time args results nonce issued_ms self_ms now_ms =
      (call args results nonce issued_ms self_ms now_ms []).1

  not_verified :
      (args : VerifyPotArgs) (pot : ProofOfTime F) (v : Verdict) (hash : Option Text)
      → v ≡ rejected
      → (answered args pot v hash).verified ≡ false
  not_verified args pot accepted hash e = cc
  not_verified args pot rejected none e = refl
  not_verified args pot rejected (some hash) e = refl
  not_verified args pot thrown hash e = refl

  checked_not_verified :
      (args : VerifyPotArgs) (results : List (Option (TimeReading F))) (nonce : Text)
      (issued_ms self_ms now_ms : ℕ) (nonces : NonceMap)
      → issued_ms ≤ self_ms
      → (made : NonceMap × Result (ProofOfTime F))
      → generate_proof_of_time env.floats results nonce issued_ms self_ms nonces ≡ made
      → (checked args now_ms made).1.verified ≡ false
  checked_not_verified args results nonce issued_ms self_ms now_ms nonces h (m, err e) g = refl
  checked_not_verified args results nonce issued_ms self_ms now_ms nonces h (m, ok pot) g =
      not_verified args pot (verify_proof_of_time env.floats now_ms pot m).1 (env.on_chain_hash pot)
        (verify-generate_rejected env.floats results nonce issued_ms self_ms nonces m pot now_ms []
          g h tt (omega arith))

  -- Neither tool ever answers that a proof of time is verified, whatever the sources answer, and
  -- whatever nonces the instance has seen: the generation has used up the nonce of the proof, so that
  -- the second verification takes it for a replay.
  pub never_verified :
      (args : VerifyPotArgs) (results : List (Option (TimeReading F))) (nonce : Text)
      (issued_ms self_ms now_ms : ℕ) (nonces : NonceMap)
      → issued_ms ≤ self_ms
      → ((call args results nonce issued_ms self_ms now_ms nonces).1.verified ≡ false)
        × ((handle_verify_proof_of_time args results nonce issued_ms self_ms now_ms).verified
            ≡ false)
  unfolding call handle_verify_proof_of_time
  never_verified args results nonce issued_ms self_ms now_ms nonces h = (
    checked_not_verified args results nonce issued_ms self_ms now_ms nonces h _ refl,
    checked_not_verified args results nonce issued_ms self_ms now_ms [] h _ refl,
  )
