-- ===== src/McpServer/Generate.antt =====
-- The tool pot_generate (mcp/tools.ts).
use open_ttt.Prelude.{
  ℕ, Option, none, some, List, [], ◌∷◌, ◌++◌, map, Text, codes, length, drop, ltb, if◌then◌else◌,
}
use open_ttt.ReplayCache.{NonceMap}
use open_ttt.TimeSynthesis.{TimeReading, ProofOfTime, Result, ok, err, generate_proof_of_time}
use open_ttt.PotSigner.{PotSignature, sign_pot}
use open_ttt.McpServer.{PotAnchorEntry, McpServer, McpEnv, pot_log_max, telemetry_increment}

pub record PotGenerateArgs : Type 0 where
  pub tx_hash : Text
  pub chain_id : ℕ
  pub pool_address : Text

-- What a call gets from outside: the answers of the sources, the random nonce, and the clock when the
-- proof is stamped, verified, signed and logged.
pub record GenerateInput (F : Type 0) : Type 0 where
  pub results : List (Option (TimeReading F))
  pub nonce : Text
  pub issued_ms : ℕ
  pub verified_ms : ℕ
  pub signed_ms : ℕ
  pub created_ms : ℕ

pub record GenerateAnswer (F : Type 0) : Type 0 where
  pub pot_hash : Text
  pub timestamp : Text
  pub stratum : ℕ
  pub uncertainty : F
  pub confidence : F
  pub sources : ℕ
  pub nonce : Text
  pub expires_at : Text
  pub grg_shards : List Text
  pub signature : PotSignature

-- `potLog.push(entry)`, and the oldest entry goes once there are too many.
unfoldable pub push_log : PotAnchorEntry → List PotAnchorEntry → List PotAnchorEntry
push_log entry log =
    let longer = log ++ entry ∷ [] in
    if ltb pot_log_max (length longer) then drop 1 longer else longer

module _ {F : Type 0} (env : McpEnv F) where
  abbrev pub entry_of :
      PotGenerateArgs → GenerateInput F → McpServer → ProofOfTime F → Text → PotAnchorEntry
  entry_of args input s pot pot_hash = record {
    pot_hash = pot_hash;
    timestamp = env.decimal pot.timestamp;
    stratum = pot.stratum;
    mode = s.adaptive_switch.current_mode;
    chain_id = args.chain_id;
    pool_address = args.pool_address;
    created_at = input.created_ms;
  }

  abbrev pub answer_of : GenerateInput F → ProofOfTime F → Text → List Text → GenerateAnswer F
  answer_of input pot pot_hash shards = record {
    pot_hash = pot_hash;
    timestamp = env.decimal pot.timestamp;
    stratum = pot.stratum;
    uncertainty = pot.uncertainty;
    confidence = pot.confidence;
    sources = pot.sources;
    nonce = pot.nonce;
    expires_at = env.decimal pot.expires_at;
    grg_shards = map env.crypto.to_hex shards;
    signature = sign_pot env.crypto env.key pot_hash input.signed_ms;
  }

  -- From the shards on.
  abbrev pub log_anchor :
      PotGenerateArgs
      → GenerateInput F
      → McpServer
      → ProofOfTime F
      → Text
      → Option (List Text)
      → McpServer × Option (GenerateAnswer F)
  log_anchor args input s pot pot_hash none = (s, none)
  log_anchor args input s pot pot_hash (some shards) = (
    record s { pot_log = push_log (entry_of args input s pot pot_hash) s.pot_log },
    some (answer_of input pot pot_hash shards),
  )

  -- From the hash of the proof on.
  abbrev pub encode_shards :
      PotGenerateArgs
      → GenerateInput F
      → McpServer
      → ProofOfTime F
      → Option Text
      → McpServer × Option (GenerateAnswer F)
  encode_shards args input s pot none = (s, none)
  encode_shards args input s pot (some pot_hash) =
      log_anchor args input s pot pot_hash
        (env.process_forward (env.utf8 args.tx_hash) args.chain_id args.pool_address)

  abbrev pub after_synthesis :
      PotGenerateArgs
      → GenerateInput F
      → McpServer
      → NonceMap × Result (ProofOfTime F)
      → McpServer × Option (GenerateAnswer F)
  after_synthesis args input s (nonces, err e) = (record s { nonces = nonces }, none)
  after_synthesis args input s (nonces, ok pot) =
      encode_shards args input (record s { nonces = nonces }) pot (env.on_chain_hash pot)

  -- `potGenerate`; `none` is a throw.
  unfoldable pub pot_generate :
      PotGenerateArgs → GenerateInput F → McpServer → McpServer × Option (GenerateAnswer F)
  pot_generate args input s =
      let counted = telemetry_increment (codes "pot_generate") s in
      after_synthesis args input counted (
        generate_proof_of_time env.floats input.results input.nonce input.issued_ms
          input.verified_ms counted.nonces)
