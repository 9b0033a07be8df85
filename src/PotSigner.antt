-- ===== src/PotSigner.antt =====
-- Signing and verifying proofs of time (src/pot_signer.ts). Keys, Ed25519 and hex text are
-- parameters; the files that hold keys are left out.
mod Tests
use open_ttt.Prelude.{
  ℕ, ◌/◌, ◌≡◌, ◌≢◌, refl, sym, ap, ◌∙◌, Bool, true, false, not, ◌&&◌, Option, none, some, List, [],
  ◌∷◌, Text, drop, text_eq, text_eq_refl, ◌==◌, if◌then◌else◌, arith,
}

pub record PotSignature : Type 0 where
  pub issuer_pub_key : Text
  pub signature : Text
  pub issued_at : ℕ

pub record SignerCrypto : Type 1 where
  pub PrivateKey : Type 0
  pub PublicKey : Type 0
  -- `Buffer.from(text, "hex")` and `toString("hex")`.
  pub from_hex : Text → Text
  pub to_hex : Text → Text
  pub sign : Text → PrivateKey → Text
  -- `none` is a throw.
  pub create_public_key : Text → Option PublicKey
  pub verify : Text → PublicKey → Text → Option Bool
  -- The exported public key of a private key.
  pub exported : PrivateKey → Text

-- `h.startsWith("0x") ? h.slice(2) : h`.
unfoldable pub strip_prefix : Text → Text
strip_prefix (a ∷ b ∷ h) = if (a == b'0') && (b == b'x') then h else a ∷ b ∷ h
strip_prefix h = h

abbrev pub holds : Option Bool → Bool
holds none = false
holds (some b) = b

-- `expectedPubKey && potSig.issuerPubKey !== expectedPubKey`; an empty key counts as none.
unfoldable pub is_other_issuer : Option Text → Text → Bool
is_other_issuer none issuer = false
is_other_issuer (some []) issuer = false
is_other_issuer (some (c ∷ cs)) issuer = not (text_eq issuer (c ∷ cs))

same_issuer : (issuer : Text) → is_other_issuer (some issuer) issuer ≡ false
unfolding is_other_issuer
same_issuer [] = refl
same_issuer (c ∷ cs) = ap not (text_eq_refl (c ∷ cs))

module _ (crypto : SignerCrypto) where
  unfoldable pub sign_pot : crypto.PrivateKey → Text → ℕ → PotSignature
  unfolding strip_prefix
  sign_pot key pot_hash now_ms = record {
    issuer_pub_key = crypto.to_hex (crypto.exported key);
    signature = crypto.to_hex (crypto.sign (crypto.from_hex (strip_prefix pot_hash)) key);
    issued_at = now_ms / 1000;
  }

  verified : Text → PotSignature → Option crypto.PublicKey → Bool
  verified pot_hash s none = false
  verified pot_hash s (some key) =
      holds
        (crypto.verify (crypto.from_hex (strip_prefix pot_hash)) key (crypto.from_hex s.signature))

  unfoldable pub verify_pot_signature : Text → PotSignature → Option Text → Bool
  unfolding strip_prefix is_other_issuer verified
  verify_pot_signature pot_hash s expected =
      if is_other_issuer expected s.issuer_pub_key
      then false
      else verified pot_hash s (crypto.create_public_key (crypto.from_hex s.issuer_pub_key))

  -- What a signature scheme and hex text promise: the exported key of a private key is read back,
  -- what the private key signs verifies with it, and hex text is read back.
  pub record IsSound : Type 0 where
    pub reads_back : (b : Text) → crypto.from_hex (crypto.to_hex b) ≡ b
    pub public_of : crypto.PrivateKey → crypto.PublicKey
    pub imports :
        (k : crypto.PrivateKey) → crypto.create_public_key (crypto.exported k) ≡ some (public_of k)
    pub verifies :
        (k : crypto.PrivateKey) (m : Text)
        → crypto.verify m (public_of k) (crypto.sign m k) ≡ some true

  signed_verifies :
      (laws : IsSound) (key : crypto.PrivateKey) (pot_hash : Text) (now_ms : ℕ)
      → verified pot_hash
          (sign_pot key pot_hash now_ms)
          (crypto.create_public_key (crypto.from_hex (crypto.to_hex (crypto.exported key))))
        ≡ true
  unfolding verified sign_pot
  signed_verifies laws key pot_hash now_ms =
      let message = crypto.from_hex (strip_prefix pot_hash) in
      ap (λ b. verified pot_hash (sign_pot key pot_hash now_ms) (crypto.create_public_key b))
        (laws.reads_back (crypto.exported key))
      ∙ ap (verified pot_hash (sign_pot key pot_hash now_ms)) (laws.imports key)
      ∙ ap (λ b. holds (crypto.verify message (laws.public_of key) b))
          (laws.reads_back (crypto.sign message key))
      ∙ ap holds (laws.verifies key message)

  -- A signed proof verifies, whether or not the signer's own key is expected, and whether or not
  -- the hash is written with the prefix 0x.
  pub verify-sign_pot :
      (laws : IsSound) (key : crypto.PrivateKey) (pot_hash : Text) (now_ms : ℕ)
      → (verify_pot_signature pot_hash (sign_pot key pot_hash now_ms) none ≡ true)
        × (verify_pot_signature pot_hash
              (sign_pot key pot_hash now_ms)
              (some (crypto.to_hex (crypto.exported key)))
            ≡ true)
  unfolding verify_pot_signature sign_pot verified
  verify-sign_pot laws key pot_hash now_ms = (
    signed_verifies laws key pot_hash now_ms,
    rw (same_issuer (crypto.to_hex (crypto.exported key)))
        (signed_verifies laws key pot_hash now_ms),
  )
