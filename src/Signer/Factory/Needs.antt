-- ===== src/Signer/Factory/Needs.antt =====
-- Which configurations give a signer, and which one (src/signer.ts).
use open_ttt.Prelude.{◌≡◌, refl, ◌↔◌, ◌⊎◌, inl, inr, true, Option, none, some, [], ◌∷◌, Text, codes}
use open_ttt.Signer.{ok}
use open_ttt.Signer.Kms.{known}
use open_ttt.Signer.Factory.{
  KmsProvider, aws, gcp, other_provider, KmsConfig, SignerConfig, private_key, turnkey, privy, kms,
  other_type, Libraries, or_default, looked_up, with_prefix, TttSigner, private_key_signer,
  turnkey_signer, aws_signer, gcp_signer, chosen_key, create_signer,
}
use open_ttt.Signer.Factory.Choice.{IsKmsMade, IsMade, create_signer-IsMade}
use open_ttt.Signer.Factory.Fields.{
  IsGiven, IsMissing, IsGivenOr, IsPrefixed, known_iff, or_default_iff, with_prefix_iff,
}

module _ (libs : Libraries) where
  -- The key of the configuration, or else that of the variable of the environment it names.
  abbrev pub IsKeyOf : Option Text → Option Text → Text → Type 0
  IsKeyOf key env_var k =
      IsGiven key k
      ⊎ (IsMissing key × ((name : Text) × IsGiven env_var name × IsGiven (libs.env name) k))

  looked_up_iff :
      (o : Option Text) (k : Text)
      → (looked_up libs.env (known o) ≡ some k)
        ↔ ((name : Text) × IsGiven o name × IsGiven (libs.env name) k)
  looked_up_iff none k = (λ e. absurd (cc), λ (name, (e, _), _). absurd (cc))
  looked_up_iff (some []) k =
      (λ e. absurd (cc), λ (name, (e, some_text), _). absurd (some_text (cc)))
  looked_up_iff (some (c ∷ cs)) k =
      let (there, back) = known_iff (libs.env (c ∷ cs)) k in
      (
        λ e. (c ∷ cs, (refl, λ empty. cc), there e),
        λ (name, (e, _), given). let same : name ≡ c ∷ cs = cc in back (rw same at given),
      )

  chosen_key_iff :
      (key env_var : Option Text) (k : Text)
      → (chosen_key libs key env_var ≡ some k) ↔ IsKeyOf key env_var k
  chosen_key_iff none env_var k =
      let (there, back) = looked_up_iff env_var k in
      (
        λ e. inr (inl refl, there e),
        λ h. elim h [ inl (e, _) ↦ absurd (cc) | inr (_, found) ↦ back found ],
      )
  chosen_key_iff (some []) env_var k =
      let (there, back) = looked_up_iff env_var k in
      (
        λ e. inr (inr refl, there e),
        λ h. elim h [ inl (e, some_text) ↦ absurd (some_text (cc)) | inr (_, found) ↦ back found ],
      )
  chosen_key_iff (some (c ∷ cs)) env_var k = (
    λ e. inl (e, λ empty. cc),
    λ h. elim h [
      | inl (e, _) ↦ e
      | inr (missing, _) ↦ elim missing [ inl e ↦ absurd (cc) | inr e ↦ absurd (cc) ]
    ],
  )

  -- What each configuration needs, and the signer that it then gives.
  abbrev pub IsKmsSigner : KmsConfig → KmsProvider → TttSigner libs → Type 0
  IsKmsSigner config aws out =
      (region : Text) × (client : libs.AwsClient) × IsGivenOr (codes "us-east-1") config.region
        region
      × (libs.new_aws_client region ≡ some client)
      × (out ≡ aws_signer client config.key_id)
  IsKmsSigner config gcp out =
      (p : Text) × (l : Text) × (r : Text) × (v : Text) × (client : libs.GcpClient) × IsGiven
        config.project_id p
      × IsGiven config.location_id l
      × IsGiven config.key_ring_id r
      × IsGiven config.key_version_id v
      × (libs.new_gcp_client ≡ some client)
      × (out ≡ gcp_signer client (libs.crypto_key_version_path p l r config.key_id v))
  IsKmsSigner config other_provider out = ⊥

  abbrev pub IsSignerOf : SignerConfig → TttSigner libs → Type 0
  IsSignerOf (private_key key env_var) out =
      (k : Text) × (full : Text) × (wallet : libs.Wallet) × IsKeyOf key env_var k
      × IsPrefixed k full
      × (libs.is_hex_string full 32 ≡ true)
      × (libs.new_wallet full ≡ some wallet)
      × (out ≡ private_key_signer wallet)
  IsSignerOf (turnkey config) out =
      (signer : libs.Turnkey) × (libs.new_turnkey config ≡ some signer)
      × (out ≡ turnkey_signer signer)
  IsSignerOf privy out = ⊥
  IsSignerOf (kms config) out = IsKmsSigner config config.provider out
  IsSignerOf other_type out = ⊥

  kms_iff :
      (config : KmsConfig) (provider : KmsProvider) (out : TttSigner libs)
      → IsKmsMade libs config provider out ↔ IsKmsSigner config provider out
  kms_iff config aws out =
      let region = or_default (known config.region) (codes "us-east-1") in
      let (there, _) = or_default_iff (codes "us-east-1") config.region region in
      (
        λ (client, made, e). (region, client, there refl, made, e),
        λ (r, client, chosen, made, e).
            let same : region ≡ r = (or_default_iff (codes "us-east-1") config.region r).1 chosen in
            (client, rw same made, e),
      )
  kms_iff config gcp out = (
    λ (p, l, r, v, client, e1, e2, e3, e4, e5, e). (
      p,
      l,
      r,
      v,
      client,
      (known_iff config.project_id p).0 e1,
      (known_iff config.location_id l).0 e2,
      (known_iff config.key_ring_id r).0 e3,
      (known_iff config.key_version_id v).0 e4,
      e5,
      e,
    ),
    λ (p, l, r, v, client, e1, e2, e3, e4, e5, e). (
      p,
      l,
      r,
      v,
      client,
      (known_iff config.project_id p).1 e1,
      (known_iff config.location_id l).1 e2,
      (known_iff config.key_ring_id r).1 e3,
      (known_iff config.key_version_id v).1 e4,
      e5,
      e,
    ),
  )
  kms_iff config other_provider out = (λ h. h, λ h. h)

  IsMade-iff :
      (config : SignerConfig) (out : TttSigner libs)
      → IsMade libs config out ↔ IsSignerOf config out
  IsMade-iff (private_key key env_var) out = (
    λ (k, wallet, chosen, formed, made, e). (
      k,
      with_prefix k,
      wallet,
      (chosen_key_iff key env_var k).0 chosen,
      (with_prefix_iff k (with_prefix k)).0 refl,
      formed,
      made,
      e,
    ),
    λ (k, full, wallet, chosen, begins, formed, made, e).
        let same : with_prefix k ≡ full = (with_prefix_iff k full).1 begins in
        (k, wallet, (chosen_key_iff key env_var k).1 chosen, rw same formed, rw same made, e),
  )
  IsMade-iff (turnkey config) out = (λ h. h, λ h. h)
  IsMade-iff privy out = (λ h. h, λ h. h)
  IsMade-iff (kms config) out = kms_iff config config.provider out
  IsMade-iff other_type out = (λ h. h, λ h. h)

  -- A configuration gives a signer exactly when it has what its type needs, and then it is the one
  -- that its type names. A private key that is given and not empty, or else one that a variable of
  -- the environment has, with 0x put in front unless it begins so, is 32 bytes in hex and makes a
  -- wallet; Turnkey's library takes its configuration; AWS has a client for the region, or for
  -- us-east-1 if none is given; GCP has a client and the four fields of the path of the key, none
  -- of them empty. Privy, other providers and other types give none.
  pub create_signer_iff :
      (config : SignerConfig) (out : TttSigner libs)
      → (create_signer libs config ≡ ok out) ↔ IsSignerOf config out
  create_signer_iff config out =
      let (a, b) = create_signer-IsMade libs config out in
      let (c, d) = IsMade-iff config out in (λ e. c (a e), λ h. b (d h))
