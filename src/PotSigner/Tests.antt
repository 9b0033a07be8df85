-- ===== src/PotSigner/Tests.antt =====
-- A run of the signer (src/pot_signer.ts) with a signature that is the key and the message.
use open_ttt.Prelude.{◌≡◌, refl, ap, false, none, some, ◌++◌, Text, codes, text_eq, text_eq_refl}
use open_ttt.PotSigner.{SignerCrypto, IsSound, strip_prefix, sign_pot, verify_pot_signature}

abbrev test_crypto : SignerCrypto
test_crypto = record {
  PrivateKey = Text;
  PublicKey = Text;
  from_hex = λ h. h;
  to_hex = λ b. b;
  sign = λ m k. k ++ m;
  create_public_key = λ b. some b;
  verify = λ m k s. some (text_eq s (k ++ m));
  exported = λ k. k;
}

test_crypto-IsSound : IsSound test_crypto
test_crypto-IsSound = record {
  reads_back = λ b. refl;
  public_of = λ k. k;
  imports = λ k. refl;
  verifies = λ k m. ap some (text_eq_refl (k ++ m));
}

-- A signature is not one of another hash.
other_hash_refused :
    verify_pot_signature test_crypto
      (codes "0xac")
      (sign_pot test_crypto (codes "k") (codes "0xab") 5000)
      none
    ≡ false
unfolding verify_pot_signature sign_pot strip_prefix
other_hash_refused = refl
