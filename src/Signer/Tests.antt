-- ===== src/Signer/Tests.antt =====
-- Runs of the signers (src/signer.ts).
use open_ttt.Prelude.{
  text_eq, ℕ, ◌+◌, ◌*◌, ◌==◌, if◌then◌else◌, ◌≡◌, ◌↔◌, refl, inr, none, some, [], ◌∷◌, Text, codes,
  length, replicate, to_hex, arith,
}
use open_ttt.Signer.{ok, err, missing_key}
use open_ttt.Signer.Der.{extract_public_key_from_der, parse_der_signature, read_s}
use open_ttt.Signer.Der.Encode.{subject_public_key_info, der_signature}
use open_ttt.Signer.Der.Key.{extract-subject_public_key_info}
use open_ttt.Signer.Der.Signature.{parse-der_signature}
use open_ttt.Signer.Kms.{
  Ethers, Service, KmsSigner, new_kms_signer, sign_digest, get_address, try_recovery,
}
use open_ttt.Signer.Kms.Recover.{
  IsSignedBy, IsKeyService, sign_digest-IsSignedBy, sign_digest_succeeds,
}
use open_ttt.Signer.Factory.{
  private_key, SignerConfig, Libraries, private_key_signer, create_signer,
  create_private_key_signer, has_prefix, with_prefix,
}
use open_ttt.Signer.Factory.Needs.{IsSignerOf, create_signer_iff}

abbrev test_algorithm : Text
test_algorithm = 6 ∷ 7 ∷ replicate 14 1

abbrev test_key : Text
test_key = 4 ∷ replicate 64 7

abbrev test_r : Text
test_r = 0 ∷ 0 ∷ replicate 30 9

abbrev test_s : Text
test_s = replicate 32 200

extract-subject_public_key_info_example :
    extract_public_key_from_der (subject_public_key_info test_algorithm test_key) ≡ ok test_key
extract-subject_public_key_info_example =
    extract-subject_public_key_info test_algorithm test_key refl refl (omega arith)

parse-der_signature_example :
    parse_der_signature (der_signature test_r test_s)
    ≡ ok (b'0' ∷ b'x' ∷ to_hex test_r, b'0' ∷ b'x' ∷ to_hex test_s)
parse-der_signature_example = parse-der_signature test_r test_s refl refl

-- Signatures are their recovery parameters, of which 28 is right.
abbrev recovered_from : ℕ → Text
recovered_from v = if v == 28 then codes "0xaa" else codes "0xbb"

abbrev test_ethers : Ethers
test_ethers = record {
  Sig = ℕ;
  compute_address = λ key. some (codes "0xaa");
  signature_from = λ r s v. some v;
  recover_address = λ digest v. some (recovered_from v);
  serialized = λ v. v ∷ [];
  to_lower = λ t. t;
  from_hex = λ t. t;
}

abbrev test_service : Service
test_service = record {
  public_key = some (subject_public_key_info test_algorithm test_key);
  sign = λ m. some (der_signature test_r test_s);
}

abbrev test_signer : KmsSigner
test_signer = record { address = some (codes "0xaa") }

test_key_service :
    IsKeyService test_ethers test_service
      (codes "0x1234")
      test_algorithm
      test_key
      test_r
      test_s
      (codes "0xaa")
      27
      28
      (codes "0xbb")
      (codes "0xaa")
test_key_service = record {
  key_size = refl;
  key_head = refl;
  key_small = omega arith;
  has_key = refl;
  r_size = refl;
  s_size = refl;
  signs = refl;
  address_lem = refl;
  sig_27 = refl;
  sig_28 = refl;
  from_27 = refl;
  from_28 = refl;
  recovers = inr refl;
}

sign_digest_succeeds_example :
    (out : Text) × (sign_digest test_ethers test_service (codes "0x1234") new_kms_signer
      ≡ (test_signer, ok out))
    × IsSignedBy test_ethers (codes "0x1234") (codes "0xaa") out
sign_digest_succeeds_example =
    sign_digest_succeeds test_ethers test_service (codes "0x1234") test_algorithm test_key test_r
      test_s (codes "0xaa") 27 28 (codes "0xbb") (codes "0xaa") test_key_service

test_signed :
    sign_digest test_ethers test_service (codes "0x1234") test_signer ≡ (test_signer, ok (28 ∷ []))
unfolding sign_digest get_address try_recovery parse_der_signature read_s
test_signed = refl

sign_digest-IsSignedBy_example :
    (addr : Text) × (get_address test_ethers test_service test_signer ≡ (test_signer, ok addr))
    × IsSignedBy test_ethers (codes "0x1234") addr (28 ∷ [])
sign_digest-IsSignedBy_example =
    sign_digest-IsSignedBy test_ethers (codes "0x1234") test_service test_signer test_signer
      (28 ∷ []) test_signed

-- Wallets are their keys.
abbrev test_libs : Libraries
test_libs = record {
  env = λ name. if text_eq name (codes "TTT_KEY") then some (replicate 64 b'1') else none;
  is_hex_string = λ t n. length t == 2 + 2 * n;
  Wallet = Text;
  new_wallet = λ key. some key;
  Turnkey = Unit;
  new_turnkey = λ config. none;
  AwsClient = Unit;
  new_aws_client = λ region. none;
  GcpClient = Unit;
  new_gcp_client = none;
  crypto_key_version_path = λ p l r k v. k;
}

abbrev test_wallet : Text
test_wallet = b'0' ∷ b'x' ∷ replicate 64 b'1'

-- No key in the configuration, and one without 0x in the environment.
abbrev test_config : SignerConfig
test_config = private_key (some []) (some (codes "TTT_KEY"))

create_signer_iff_example :
    (create_signer test_libs test_config ≡ ok (private_key_signer test_wallet))
    ↔ IsSignerOf test_libs test_config (private_key_signer test_wallet)
create_signer_iff_example = create_signer_iff test_libs test_config (private_key_signer test_wallet)

test_created : create_signer test_libs test_config ≡ ok (private_key_signer test_wallet)
unfolding create_signer create_private_key_signer with_prefix has_prefix
test_created = refl

test_missing :
    create_signer test_libs (private_key (some []) (some (codes "KEY"))) ≡ err missing_key
unfolding create_signer create_private_key_signer
test_missing = refl
