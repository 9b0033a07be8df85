-- ===== src/AgentPlugin/Tests.antt =====
-- Runs of the plugin (plugins/elizaos-plugin-openttt/src/actions) with simple functions for its
-- environment.
use open_ttt.Prelude.{
  ℕ, ◌+◌, ◌≤◌, ◌≡◌, ◌↔◌, refl, true, false, Option, none, some, List, [], ◌∷◌, ◌++◌, Text, codes,
  text_eq, if◌then◌else◌,
}
use open_ttt.PotSigner.{SignerCrypto, PotSignature, verify_pot_signature}
use open_ttt.AgentPlugin.{VerifiedTime}
use open_ttt.AgentPlugin.Generate.{
  Json, number, big_int, text, boolean, array, object, Items, no_items, item, Fields, no_fields,
  field, has_big_int, PotToken, PluginEnv, make_token, generate_pot,
}
use open_ttt.AgentPlugin.Verify.{FindInput, valid, no_token, verify_pot, query_pot}
use open_ttt.AgentPlugin.Actions.{
  Step, generates, verifies, queries, sweeps, run, IsStrict, never_cached, verify_given_iff,
}

-- JSON with one number for a number and no escapes; nothing for a bigint.
unfoldable mutual
  write : Json → Text
  write (number n) = n ∷ []
  write (big_int n) = []
  write (text t) = codes "\"" ++ (t ++ codes "\"")
  write (boolean true) = codes "true"
  write (boolean false) = codes "false"
  write (array xs) = codes "[" ++ (write_items xs ++ codes "]")
  write (object fs) = codes "{" ++ (write_fields fs ++ codes "}")

  write_items : Items → Text
  write_items no_items = []
  write_items (item v xs) = write v ++ (codes "," ++ write_items xs)

  write_fields : Fields → Text
  write_fields no_fields = []
  write_fields (field k v fs) = k ++ (codes ":" ++ (write v ++ (codes "," ++ write_fields fs)))

abbrev test_crypto : SignerCrypto
test_crypto = record {
  PrivateKey = Text;
  PublicKey = Text;
  from_hex = λ h. h;
  to_hex = λ b. b;
  sign = λ m k. k ++ m;
  create_public_key = λ b. some b;
  verify = λ m k s. some (text_eq s (k ++ m));
  exported = λ k. k;
}

abbrev test_env : PluginEnv
test_env = record {
  crypto = test_crypto;
  signer = codes "k";
  decimal = λ n. n ∷ [];
  iso = λ n. n ∷ [];
  sha256_hex = λ t. b'#' ∷ t;
  stringify = λ v. if has_big_int v then none else some (write v);
  parse = λ t. none;
}

test_env-IsStrict : IsStrict test_env
test_env-IsStrict v h = rw h refl

-- Without a bigint it does not throw.
number_written : test_env.stringify (array (item (number 53) no_items)) ≡ some (codes "[5,]")
unfolding has_big_int write
number_written = refl

abbrev time_of : ℕ → VerifiedTime
time_of t = record {
  timestamp = t;
  sources = codes "NIST" ∷ codes "Apple" ∷ [];
  consensus = true;
  deviation_ms = 3;
}

abbrev input_of : Option PotToken → FindInput
input_of pot = record {
  pot = pot;
  pot_hash = some (codes "ab");
  text_match = none;
  agent_id = codes "a";
  hash_ms = 2000;
  last_ms = 2000;
  pot_ms = 2001;
}

abbrev test_steps : List Step
test_steps =
    generates (codes "a") (time_of 1000) (codes "n") 1001 1002 1003
    ∷ verifies (input_of none) (time_of 1900)
    ∷ sweeps 3000
    ∷ queries (input_of none)
    ∷ []

never_cached_example :
    (run test_env test_steps [] ≡ [])
    × (generate_pot test_env
          (codes "a")
          (time_of 4000)
          (codes "m")
          4001
          4002
          4003
          (run test_env test_steps [])
        ≡ ([], none))
    × ((verify_pot test_env (input_of none) (time_of 4100) (run test_env test_steps [])).1
        ≡ no_token)
    × ((query_pot test_env (input_of none) (run test_env test_steps [])).1 ≡ none)
never_cached_example =
    never_cached test_env test_env-IsStrict test_steps (codes "a") (time_of 4000) (codes "m") 4001
      4002 4003 (input_of none) (time_of 4100) refl

abbrev test_token : PotToken
test_token = make_token test_env (codes "a") (time_of 1000) (codes "n") 1001

verify_given_iff_example :
    ((verify_pot test_env (input_of (some test_token)) (time_of 1900) []).1 ≡ valid) ↔ (
      (s : PotSignature) × (test_token.signature ≡ some s)
      × (verify_pot_signature test_env.crypto test_token.pot_hash s none ≡ true)
      × (test_token.timestamp ≤ 1900)
      × (1900 ≤ test_token.timestamp + 300000))
verify_given_iff_example =
    verify_given_iff test_env (input_of (some test_token)) test_token (time_of 1900) [] refl
