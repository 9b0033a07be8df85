-- ===== src/Signer/Factory/Choice.antt =====
-- When the steps of the factory give a signer (src/signer.ts).
use open_ttt.Prelude.{ℕ, ◌≡◌, refl, ◌↔◌, true, false, Option, none, some, ◌∷◌, Text, codes}
use open_ttt.Signer.{
  SignerError, missing_key, invalid_key_format, invalid_wallet, turnkey_failed, kms_aws_init_failed,
  kms_gcp_missing_fields, kms_gcp_init_failed, ok, require, came_from, required,
}
use open_ttt.Signer.Kms.{known}
use open_ttt.Signer.Factory.{
  KmsProvider, aws, gcp, other_provider, KmsConfig, SignerConfig, private_key, turnkey, privy, kms,
  other_type, Libraries, or_else, or_default, has_prefix, with_prefix, TttSigner,
  private_key_signer, turnkey_signer, aws_signer, gcp_signer, chosen_key, create_private_key_signer,
  create_kms_signer, create_signer,
}

or_else-ok {ℓ} :
    {X : Type ℓ} (o : Option X) (e : SignerError) {x : X} → or_else o e ≡ ok x → o ≡ some x
or_else-ok none e h = cc
or_else-ok (some x) e h = cc

module _ (libs : Libraries) where
  -- The steps have results, and these are what the signer is made of.
  abbrev pub IsKmsMade : KmsConfig → KmsProvider → TttSigner libs → Type 0
  IsKmsMade config aws out =
      (client : libs.AwsClient) × (libs.new_aws_client
          (or_default (known config.region) (codes "us-east-1"))
        ≡ some client)
      × (out ≡ aws_signer client config.key_id)
  IsKmsMade config gcp out =
      (p : Text) × (l : Text) × (r : Text) × (v : Text) × (client : libs.GcpClient) × (known
          config.project_id
        ≡ some p)
      × (known config.location_id ≡ some l)
      × (known config.key_ring_id ≡ some r)
      × (known config.key_version_id ≡ some v)
      × (libs.new_gcp_client ≡ some client)
      × (out ≡ gcp_signer client (libs.crypto_key_version_path p l r config.key_id v))
  IsKmsMade config other_provider out = ⊥

  abbrev pub IsMade : SignerConfig → TttSigner libs → Type 0
  IsMade (private_key key env_var) out =
      (k : Text) × (wallet : libs.Wallet) × (chosen_key libs key env_var ≡ some k)
      × (libs.is_hex_string (with_prefix k) 32 ≡ true)
      × (libs.new_wallet (with_prefix k) ≡ some wallet)
      × (out ≡ private_key_signer wallet)
  IsMade (turnkey config) out =
      (signer : libs.Turnkey) × (libs.new_turnkey config ≡ some signer)
      × (out ≡ turnkey_signer signer)
  IsMade privy out = ⊥
  IsMade (kms config) out = IsKmsMade config config.provider out
  IsMade other_type out = ⊥

  private_key_made :
      (chosen : Option Text) (out : TttSigner libs)
      → create_private_key_signer libs chosen ≡ ok out
      → (k : Text) × (wallet : libs.Wallet) × (chosen ≡ some k)
        × (libs.is_hex_string (with_prefix k) 32 ≡ true)
        × (libs.new_wallet (with_prefix k) ≡ some wallet)
        × (out ≡ private_key_signer wallet)
  unfolding create_private_key_signer
  private_key_made chosen out e =
      let (k, found, e) = came_from (or_else chosen missing_key) _ e in
      let hex = libs.is_hex_string (with_prefix k) 32 in
      let (_, formed, e) = came_from (require hex invalid_key_format) _ e in
      let (wallet, made, e) =
        came_from (or_else (libs.new_wallet (with_prefix k)) invalid_wallet) _ e in
      (
        k,
        wallet,
        or_else-ok chosen missing_key found,
        required hex invalid_key_format formed,
        or_else-ok (libs.new_wallet (with_prefix k)) invalid_wallet made,
        (cc),
      )

  kms_made :
      (config : KmsConfig) (provider : KmsProvider) (out : TttSigner libs)
      → create_kms_signer libs config provider ≡ ok out
      → IsKmsMade config provider out
  unfolding create_kms_signer
  kms_made config aws out e =
      let opened = libs.new_aws_client (or_default (known config.region) (codes "us-east-1")) in
      let (client, made, e) = came_from (or_else opened kms_aws_init_failed) _ e in
      (client, or_else-ok opened kms_aws_init_failed made, (cc))
  kms_made config gcp out e =
      let missing = kms_gcp_missing_fields in
      let (p, e1, e) = came_from (or_else (known config.project_id) missing) _ e in
      let (l, e2, e) = came_from (or_else (known config.location_id) missing) _ e in
      let (r, e3, e) = came_from (or_else (known config.key_ring_id) missing) _ e in
      let (v, e4, e) = came_from (or_else (known config.key_version_id) missing) _ e in
      let (client, e5, e) = came_from (or_else libs.new_gcp_client kms_gcp_init_failed) _ e in
      (
        p,
        l,
        r,
        v,
        client,
        or_else-ok (known config.project_id) missing e1,
        or_else-ok (known config.location_id) missing e2,
        or_else-ok (known config.key_ring_id) missing e3,
        or_else-ok (known config.key_version_id) missing e4,
        or_else-ok libs.new_gcp_client kms_gcp_init_failed e5,
        (cc),
      )
  kms_made config other_provider out e = cc

  kms_makes :
      (config : KmsConfig) (provider : KmsProvider) (out : TttSigner libs)
      → IsKmsMade config provider out
      → create_kms_signer libs config provider ≡ ok out
  unfolding create_kms_signer
  kms_makes config aws out (client, made, e) = rw (made) (rw e refl)
  kms_makes config gcp out (p, l, r, v, client, e1, e2, e3, e4, e5, e) =
      rw e1 (rw e2 (rw e3 (rw e4 (rw e5 (rw e refl)))))
  kms_makes config other_provider out h = absurd h

  signer-IsMade :
      (config : SignerConfig) (out : TttSigner libs)
      → create_signer libs config ≡ ok out
      → IsMade config out
  unfolding create_signer
  signer-IsMade (private_key key env_var) out e =
      private_key_made (chosen_key libs key env_var) out e
  signer-IsMade (turnkey config) out e =
      let (signer, made, e) = came_from (or_else (libs.new_turnkey config) turnkey_failed) _ e in
      (signer, or_else-ok (libs.new_turnkey config) turnkey_failed made, (cc))
  signer-IsMade privy out e = cc
  signer-IsMade (kms config) out e = kms_made config config.provider out e
  signer-IsMade other_type out e = cc

  signer_makes :
      (config : SignerConfig) (out : TttSigner libs)
      → IsMade config out
      → create_signer libs config ≡ ok out
  unfolding create_signer create_private_key_signer
  signer_makes (private_key key env_var) out (k, wallet, e1, e2, e3, e) =
      rw e1 (rw e2 (rw e3 (rw e refl)))
  signer_makes (turnkey config) out (signer, made, e) = rw made (rw e refl)
  signer_makes privy out h = absurd h
  signer_makes (kms config) out h = kms_makes config config.provider out h
  signer_makes other_type out h = absurd h

  pub create_signer-IsMade :
      (config : SignerConfig) (out : TttSigner libs)
      → (create_signer libs config ≡ ok out) ↔ IsMade config out
  create_signer-IsMade config out = (signer-IsMade config out, signer_makes config out)

  -- A private key that does not begin with 0x gives the same signer, or the same error, as with 0x in
  -- front of it, and as when it stands in the environment.
  pub create_signer_prefixed :
      (c : ℕ) (k name : Text) (d : ℕ)
      → has_prefix (c ∷ k) ≡ false
      → libs.env (d ∷ name) ≡ some (c ∷ k)
      → (create_signer libs (private_key (some (b'0' ∷ b'x' ∷ c ∷ k)) none)
          ≡ create_signer libs (private_key (some (c ∷ k)) none))
        × (create_signer libs (private_key none (some (d ∷ name)))
            ≡ create_signer libs (private_key (some (c ∷ k)) none))
  unfolding create_signer create_private_key_signer with_prefix has_prefix
  create_signer_prefixed c k name d e f = (rw e refl, rw f refl)
