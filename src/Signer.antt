-- ===== src/Signer.antt =====
-- The signers (src/signer.ts): reading keys and signatures in DER, the key services, the factory.
pub mod Der
pub mod Kms
pub mod Factory
mod Tests
use open_ttt.Prelude.{ℕ, ◌≡◌, refl, ap, ◌∙◌, Bool, true, false, if◌then◌else◌}

pub data SignerError : Type 0 where
  -- The plain errors of the DER reader.
  end_in_tag end_in_length end_in_long_length : SignerError
  unsupported_length expected_sequence expected_inner_sequence expected_bit_string : ℕ → SignerError
  unused_bits unexpected_key : SignerError
  not_a_sequence expected_r expected_s : SignerError
  -- What a key service or a library throws.
  service_failed no_recovery_param invalid_wallet : SignerError
  -- The codes of the factory.
  missing_key invalid_key_format turnkey_failed privy_not_implemented : SignerError
  kms_aws_init_failed kms_gcp_missing_fields kms_gcp_init_failed : SignerError
  kms_unsupported_provider unsupported_type : SignerError

pub data Result {ℓ} (X : Type ℓ) : Type ℓ where
  err : SignerError → Result X
  ok : X → Result X

infixl 5 ◌>>=◌ ◌>>◌
abbrev pub ◌>>=◌ {κ μ} : {X : Type κ} {Y : Type μ} → Result X → (X → Result Y) → Result Y
err e >>= next = err e
ok x >>= next = next x

abbrev pub ◌>>◌ {κ} : {Y : Type κ} → Result (Unit {0}) → Result Y → Result Y
m >> next = m >>= λ _. next

-- `if (!test) throw error`.
abbrev pub require : Bool → SignerError → Result (Unit {0})
require b e = if b then ok tt else err e

-- A step that gives a value hands it on.
pub goes_on {κ μ} :
    {X : Type κ} {Y : Type μ} {m : Result X} {x : X} {r : Result Y} (f : X → Result Y)
    → m ≡ ok x
    → f x ≡ r
    → (m >>= f) ≡ r
goes_on f e h = ap (λ m. m >>= f) e ∙ h

-- What came before a result.
pub came_from {κ μ} :
    {X : Type κ} {Y : Type μ} (m : Result X) (f : X → Result Y) {r : Y}
    → (m >>= f) ≡ ok r
    → (x : X) × (m ≡ ok x) × (f x ≡ ok r)
came_from (err e) f h = cc
came_from (ok x) f h = (x, refl, h)

pub required : (b : Bool) (e : SignerError) {u : Unit {0}} → require b e ≡ ok u → b ≡ true
required true e h = refl
required false e h = cc
