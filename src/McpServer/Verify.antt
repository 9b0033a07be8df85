-- ===== src/McpServer/Verify.antt =====
-- What the tool pot_verify accepts (mcp/tools.ts).
use open_ttt.Prelude.{
  ℕ, ◌≡◌, refl, ap, ◌↔◌, Bool, true, false, Option, none, some, [], ◌∷◌, map, Text, length, arith,
}
use open_ttt.AdaptiveSwitch.{AdaptiveMode}
use open_ttt.PotSigner.{verify_pot_signature}
use open_ttt.McpServer.{McpServer, McpEnv}
use open_ttt.McpServer.Answers.{
  SignatureArgs, PotVerifyArgs, VerifyAnswer, signature_valid, ed25519_valid, verify_answer,
  check_recovered, pot_verify,
}

abbrev pub is_valid : Option VerifyAnswer → Bool
is_valid none = false
is_valid (some a) = a.valid

module _ {F : Type 0} (env : McpEnv F) where
  -- There is no signature, or its time can be read and it is one of the hash by the key it names.
  abbrev pub IsUnsignedOrSigned : Text → Option SignatureArgs → Type 0
  IsUnsignedOrSigned pot_hash none = Unit
  IsUnsignedOrSigned pot_hash (some a) =
      (n : ℕ) × (env.big_int a.issued_at ≡ some n)
      × (verify_pot_signature env.crypto pot_hash
            (record { issuer_pub_key = a.issuer_pub_key; signature = a.signature; issued_at = n })
            none
          ≡ true)

  signature_valid_iff :
      (pot_hash : Text) (a : SignatureArgs) (m : Option ℕ)
      → (signature_valid env pot_hash a m ≡ some true) ↔ (
          (n : ℕ) × (m ≡ some n)
          × (verify_pot_signature env.crypto pot_hash
                (record {
                  issuer_pub_key = a.issuer_pub_key;
                  signature = a.signature;
                  issued_at = n;
                })
                none
              ≡ true))
  signature_valid_iff pot_hash a none =
      (λ h. absurd (ground arith), λ (n, h, _). absurd (ground arith))
  signature_valid_iff pot_hash a (some k) =
      (λ h. (k, refl, cc), λ (n, h, good). let e : k ≡ n = cc in rw e (ap some good))

  ed25519_valid_iff :
      (pot_hash : Text) (given : Option SignatureArgs)
      → (ed25519_valid env pot_hash given ≡ some true) ↔ IsUnsignedOrSigned pot_hash given
  ed25519_valid_iff pot_hash none = (λ _. tt, λ _. refl)
  ed25519_valid_iff pot_hash (some a) = signature_valid_iff pot_hash a (env.big_int a.issued_at)

  valid_iff :
      (args : PotVerifyArgs) (mode : AdaptiveMode) (now_ms size : ℕ) (b : Option Bool)
      → (is_valid (verify_answer env args mode now_ms size b) ≡ true) ↔ (b ≡ some true)
  valid_iff args mode now_ms size none = (λ h. absurd (ground arith), λ h. absurd (ground arith))
  valid_iff args mode now_ms size (some b) = (λ h. ap some h, λ h. ground arith)

  recovered_iff :
      (args : PotVerifyArgs) (mode : AdaptiveMode) (now_ms : ℕ) (recovered : Option Text)
      → (is_valid (check_recovered env args mode now_ms recovered) ≡ true) ↔ (
          (b : ℕ) × (bs : Text) × (recovered ≡ some (b ∷ bs))
          × IsUnsignedOrSigned args.pot_hash args.signature)
  recovered_iff args mode now_ms none =
      (λ h. absurd (ground arith), λ (b, bs, h, _). absurd (ground arith))
  recovered_iff args mode now_ms (some []) =
      (λ h. absurd (ground arith), λ (b, bs, h, _). absurd (ground arith))
  recovered_iff args mode now_ms (some (b ∷ bs)) =
      let (there, back) =
        valid_iff args mode now_ms (length (b ∷ bs))
          (ed25519_valid env args.pot_hash args.signature) in
      let (signed, signed_back) = ed25519_valid_iff args.pot_hash args.signature in
      (λ h. (b, bs, refl, signed (there h)), λ (_, _, _, s). back (signed_back s))

  -- The tool pot_verify calls a hash valid exactly if something is recovered from the shards in the
  -- context of the chain and the pool, and there is no signature or one of the hash by the key that
  -- it names; what is recovered is not compared with the hash.
  pub pot_verify_iff :
      (args : PotVerifyArgs) (now_ms : ℕ) (s : McpServer)
      → (is_valid (pot_verify env args now_ms s).1 ≡ true) ↔ (
          (b : ℕ) × (bs : Text) × (env.process_inverse
              (map env.crypto.from_hex args.grg_shards)
              0
              args.chain_id
              args.pool_address
            ≡ some (b ∷ bs))
          × IsUnsignedOrSigned args.pot_hash args.signature)
  unfolding pot_verify
  pot_verify_iff args now_ms s = recovered_iff args s.adaptive_switch.current_mode now_ms (
      env.process_inverse (map env.crypto.from_hex args.grg_shards) 0 args.chain_id
        args.pool_address)
