-- ===== src/Signer/Factory.antt =====
-- The signer that a configuration asks for (src/signer.ts). The libraries that make wallets and
-- clients are parameters; `none` of theirs is a throw, of a module that is not installed too.
mod Choice
mod Fields
pub mod Needs
use open_ttt.Prelude.{
  ℕ, Bool, false, Option, none, some, List, [], ◌∷◌, Text, codes, ◌&&◌, ◌==◌, if◌then◌else◌,
}
use open_ttt.Signer.{
  SignerError, missing_key, invalid_key_format, invalid_wallet, turnkey_failed,
  privy_not_implemented, kms_aws_init_failed, kms_gcp_missing_fields, kms_gcp_init_failed,
  kms_unsupported_provider, unsupported_type, Result, ok, err, ◌>>=◌, ◌>>◌, require,
}
use open_ttt.Signer.Kms.{known}

pub record TurnkeyConfig : Type 0 where
  pub api_base_url : Text
  pub organization_id : Text
  pub private_key_id : Text
  pub api_public_key : Text
  pub api_private_key : Text

pub data KmsProvider : Type 0 where
  aws gcp other_provider : KmsProvider

pub record KmsConfig : Type 0 where
  pub provider : KmsProvider
  pub key_id : Text
  pub region : Option Text
  pub project_id : Option Text
  pub location_id : Option Text
  pub key_ring_id : Option Text
  pub key_version_id : Option Text

-- `key` and `envVar` of a private key; a configuration without a known type comes last.
pub data SignerConfig : Type 0 where
  private_key : Option Text → Option Text → SignerConfig
  turnkey : TurnkeyConfig → SignerConfig
  privy : SignerConfig
  kms : KmsConfig → SignerConfig
  other_type : SignerConfig

pub record Libraries : Type 1 where
  pub env : Text → Option Text
  pub is_hex_string : Text → ℕ → Bool
  pub Wallet : Type 0
  pub new_wallet : Text → Option Wallet
  pub Turnkey : Type 0
  pub new_turnkey : TurnkeyConfig → Option Turnkey
  pub AwsClient : Type 0
  -- By region.
  pub new_aws_client : Text → Option AwsClient
  pub GcpClient : Type 0
  pub new_gcp_client : Option GcpClient
  -- Of project, location, key ring, key and version.
  pub crypto_key_version_path : Text → Text → Text → Text → Text → Text

abbrev pub or_else {ℓ} : {X : Type ℓ} → Option X → SignerError → Result X
or_else none e = err e
or_else (some x) e = ok x

-- `config.key`, or the variable of the environment if there is no key.
abbrev pub first_known : Option Text → Option Text → Option Text
first_known none other = other
first_known (some k) other = some k

abbrev pub looked_up : (Text → Option Text) → Option Text → Option Text
looked_up env none = none
looked_up env (some name) = known (env name)

abbrev pub or_default : Option Text → Text → Text
or_default none d = d
or_default (some t) d = t

unfoldable pub has_prefix : Text → Bool
has_prefix (a ∷ b ∷ rest) = (a == b'0') && (b == b'x')
has_prefix rest = false

unfoldable pub with_prefix : Text → Text
with_prefix k = if has_prefix k then k else b'0' ∷ b'x' ∷ k

module _ (libs : Libraries) where
  pub data TttSigner : Type 0 where
    private_key_signer : libs.Wallet → TttSigner
    turnkey_signer : libs.Turnkey → TttSigner
    aws_signer : libs.AwsClient → Text → TttSigner
    gcp_signer : libs.GcpClient → Text → TttSigner

  abbrev pub chosen_key : Option Text → Option Text → Option Text
  chosen_key key env_var = first_known (known key) (looked_up libs.env (known env_var))

  unfoldable pub create_private_key_signer : Option Text → Result TttSigner
  create_private_key_signer chosen = do
    k ← or_else chosen missing_key
    let key = with_prefix k
    require (libs.is_hex_string key 32) invalid_key_format
    wallet ← or_else (libs.new_wallet key) invalid_wallet
    ok (private_key_signer wallet)

  unfoldable pub create_kms_signer : KmsConfig → KmsProvider → Result TttSigner
  create_kms_signer config aws = do
    client ←
        or_else (libs.new_aws_client (or_default (known config.region) (codes "us-east-1")))
          kms_aws_init_failed
    ok (aws_signer client config.key_id)
  create_kms_signer config gcp = do
    project ← or_else (known config.project_id) kms_gcp_missing_fields
    location ← or_else (known config.location_id) kms_gcp_missing_fields
    key_ring ← or_else (known config.key_ring_id) kms_gcp_missing_fields
    key_version ← or_else (known config.key_version_id) kms_gcp_missing_fields
    client ← or_else libs.new_gcp_client kms_gcp_init_failed
    ok (
        gcp_signer client
          (libs.crypto_key_version_path project location key_ring config.key_id key_version))
  create_kms_signer config other_provider = err kms_unsupported_provider

  unfoldable pub create_signer : SignerConfig → Result TttSigner
  create_signer (private_key key env_var) = create_private_key_signer (chosen_key key env_var)
  create_signer (turnkey config) = do
    signer ← or_else (libs.new_turnkey config) turnkey_failed
    ok (turnkey_signer signer)
  create_signer privy = err privy_not_implemented
  create_signer (kms config) = create_kms_signer config config.provider
  create_signer other_type = err unsupported_type
