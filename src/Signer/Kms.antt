-- ===== src/Signer/Kms.antt =====
-- The signers on a key service (src/signer.ts): the address of the service's key, and the search for
-- the recovery parameter of a signature. The AWS and the GCP signer differ in how the service is
-- asked, which is a parameter like ethers; what it answers may differ from call to call.
pub mod Recover
use open_ttt.Prelude.{
  ℕ, Bool, true, false, Option, none, some, List, [], ◌∷◌, Text, drop, text_eq, to_hex,
  if◌then◌else◌,
}
use open_ttt.Signer.{SignerError, service_failed, no_recovery_param, Result, ok, err, ◌>>=◌}
use open_ttt.Signer.Der.{extract_public_key_from_der, parse_der_signature}

-- What ethers and Node do; `none` is a throw.
pub record Ethers : Type 1 where
  pub Sig : Type 0
  pub compute_address : Text → Option Text
  -- `Signature.from({ r, s, v })`
  pub signature_from : Text → Text → ℕ → Option Sig
  pub recover_address : Text → Sig → Option Text
  pub serialized : Sig → Text
  pub to_lower : Text → Text
  -- `Buffer.from(text, "hex")`
  pub from_hex : Text → Text

-- What the service answers to one call: its public key in DER, and the signature of a message.
pub record Service : Type 0 where
  pub public_key : Option Text
  pub sign : Text → Option Text

pub record KmsSigner : Type 0 where
  pub address : Option Text

-- `if (this.address)`: null and the empty string count as none.
abbrev pub known : Option Text → Option Text
known none = none
known (some []) = none
known (some (c ∷ cs)) = some (c ∷ cs)

abbrev pub answered {ℓ} : {X : Type ℓ} → Option X → Result X
answered none = err service_failed
answered (some x) = ok x

-- `connect(provider)`, and the constructor.
unfoldable pub new_kms_signer : KmsSigner
new_kms_signer = record { address = none }

abbrev pub fetched : KmsSigner → Result Text → KmsSigner × Result Text
fetched signer (err e) = (signer, err e)
fetched signer (ok a) = (record { address = some a }, ok a)

module _ (ethers : Ethers) where
  unfoldable pub address_of_key : Text → Result Text
  address_of_key der = do
    pub_key ← extract_public_key_from_der der
    answered (ethers.compute_address (b'0' ∷ b'x' ∷ to_hex pub_key))

  abbrev pub cached_or : Service → KmsSigner → Option Text → KmsSigner × Result Text
  cached_or service signer (some a) = (signer, ok a)
  cached_or service signer none = fetched signer (answered service.public_key >>= address_of_key)

  unfoldable pub get_address : Service → KmsSigner → KmsSigner × Result Text
  get_address service signer = cached_or service signer (known signer.address)

  -- The loop over the recovery parameters.
  unfoldable pub try_recovery : Text → Text → Text → Text → List ℕ → Result Text
  try_recovery digest r s addr [] = err no_recovery_param
  try_recovery digest r s addr (v ∷ vs) = do
    signature ← answered (ethers.signature_from r s v)
    recovered ← answered (ethers.recover_address digest signature)
    let rest = try_recovery digest r s addr vs
    let matches = text_eq (ethers.to_lower recovered) (ethers.to_lower addr)
    (if matches then ok (ethers.serialized signature) else rest)

  abbrev pub with_parts :
      Service → Text → KmsSigner → Result (Text × Text) → KmsSigner × Result Text
  with_parts service digest signer (err e) = (signer, err e)
  with_parts service digest signer (ok (r, s)) =
      let (signer', addr) = get_address service signer in
      (signer', addr >>= λ a. try_recovery digest r s a (27 ∷ 28 ∷ []))

  -- The service's signature is read before the address is asked for.
  unfoldable pub sign_digest : Service → Text → KmsSigner → KmsSigner × Result Text
  sign_digest service digest signer =
      with_parts service digest signer
        (answered (service.sign (ethers.from_hex (drop 2 digest))) >>= parse_der_signature)
