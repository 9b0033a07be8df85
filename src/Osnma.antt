-- ===== src/Osnma.antt =====
-- The OSNMA time source (src/osnma_source.ts). Reading hex text and SHA-256 are parameters; the time
-- of a call, in milliseconds, is an argument.
mod Tests
use open_ttt.Prelude.{
  ℕ, ◌*◌, ◌≤◌, ◌≡◌, ◌≢◌, refl, ap, ◌∙◌, ◌↔◌, ◌⊎◌, inl, inr, Bool, true, false, not, ◌&&◌, ◌||◌,
  Option, none, some, List, [], ◌∷◌, Text, codes, to_hex, length, ltb, ◌==◌, if◌then◌else◌, arith,
  Bool-cases,
}

pub data OsnmaError : Type 0 where
  key_length_invalid key_prefix_invalid merkle_length_invalid : ℕ → OsnmaError
  key_not_yet_applicable : OsnmaError

pub data Result {ℓ} (X : Type ℓ) : Type ℓ where
  err : OsnmaError → Result X
  ok : X → Result X

infixl 5 ◌>>◌
abbrev pub ◌>>◌ {κ} : {Y : Type κ} → Result (Unit {0}) → Result Y → Result Y
err e >> next = err e
ok u >> next = next

-- `if (test) throw error`.
abbrev pub refuse : Bool → OsnmaError → Result (Unit {0})
refuse b e = if b then err e else ok tt

pub record OsnmaKeyMaterial : Type 0 where
  pub pkid : ℕ
  pub public_key_hex : Text
  pub merkle_root_hex : Text
  pub hash_function : Text
  pub applicability_ms : ℕ

pub record OsnmaVerificationResult : Type 0 where
  pub valid : Bool
  pub pkid : ℕ
  pub merkle_root_hex : Text
  pub key_fingerprint : Text
  pub applicability_ms : ℕ
  pub checked_at : ℕ

pub record PartialKeyMaterial : Type 0 where
  pub pkid : Option ℕ
  pub public_key_hex : Option Text
  pub merkle_root_hex : Option Text
  pub hash_function : Option Text
  pub applicability_ms : Option ℕ

pub record OsnmaTimeSource : Type 0 where
  pub key_material : OsnmaKeyMaterial
  pub verification_result : Option OsnmaVerificationResult

pub record TimeReading : Type 0 where
  pub timestamp : ℕ
  pub uncertainty_ms : ℕ
  pub stratum : ℕ
  pub source : Text

-- `??`.
abbrev or_default {ℓ} : {X : Type ℓ} → Option X → X → X
or_default none d = d
or_default (some x) d = x

abbrev pub first_byte : Text → ℕ
first_byte [] = 0
first_byte (b ∷ bs) = b

-- 2025-12-10T10:00:00Z.
abbrev pub osnma_applicability : ℕ
osnma_applicability = 1765360800000

unfoldable pub default_osnma_key : OsnmaKeyMaterial
default_osnma_key = record {
  pkid = 2;
  public_key_hex = codes "02219204B5CA6C46B623EEED6CDD2CDDB1F7D6A7532767E5B8DA0DE1EBD695FC99";
  merkle_root_hex = codes "7B944FA20915C7931D48DD016D94F9C6381FD37DC6C125D97015272FDDE41393";
  hash_function = codes "SHA-256";
  applicability_ms = osnma_applicability;
}

unfoldable pub new_osnma_time_source : PartialKeyMaterial → OsnmaTimeSource
new_osnma_time_source given = record {
  key_material = record {
    pkid = or_default given.pkid default_osnma_key.pkid;
    public_key_hex = or_default given.public_key_hex default_osnma_key.public_key_hex;
    merkle_root_hex = or_default given.merkle_root_hex default_osnma_key.merkle_root_hex;
    hash_function = or_default given.hash_function default_osnma_key.hash_function;
    applicability_ms = or_default given.applicability_ms default_osnma_key.applicability_ms;
  };
  verification_result = none;
}

abbrev pub reading_at : ℕ → TimeReading
reading_at now_ms = record {
  timestamp = now_ms * 1000000;
  uncertainty_ms = 50;
  stratum = 1;
  source = codes "osnma";
}

module _ (from_hex : Text → Text) (sha256 : Text → Text) where
  abbrev pub result_of : ℕ → OsnmaKeyMaterial → OsnmaVerificationResult
  result_of now_ms key = record {
    valid = true;
    pkid = key.pkid;
    merkle_root_hex = key.merkle_root_hex;
    key_fingerprint = to_hex (sha256 (from_hex key.public_key_hex));
    applicability_ms = key.applicability_ms;
    checked_at = now_ms;
  }

  unfoldable pub verify_osnma_key_material : ℕ → OsnmaKeyMaterial → Result OsnmaVerificationResult
  verify_osnma_key_material now_ms key =
      let pub_key = from_hex key.public_key_hex in
      let prefix = first_byte pub_key in
      let merkle = from_hex key.merkle_root_hex in
      refuse (not (length pub_key == 33)) (key_length_invalid (length pub_key))
      >> (refuse (not (prefix == 2) && not (prefix == 3)) (key_prefix_invalid prefix)
          >> (refuse (not (length merkle == 32)) (merkle_length_invalid (length merkle))
              >> (refuse (ltb now_ms key.applicability_ms) key_not_yet_applicable
                  >> ok (result_of now_ms key))))

  abbrev pub verified_then :
      ℕ → OsnmaTimeSource → Result OsnmaVerificationResult → OsnmaTimeSource × Result TimeReading
  verified_then now_ms s (err e) = (s, err e)
  verified_then now_ms s (ok r) =
      (record s { verification_result = some r }, ok (reading_at now_ms))

  -- The result that is stored, or a new verification.
  abbrev stored_or :
      Option OsnmaVerificationResult
      → Result OsnmaVerificationResult
      → Result OsnmaVerificationResult
  stored_or none fresh = fresh
  stored_or (some r) fresh = ok r

  unfoldable pub get_time : ℕ → OsnmaTimeSource → OsnmaTimeSource × Result TimeReading
  get_time now_ms s =
      verified_then now_ms s
        (stored_or s.verification_result (verify_osnma_key_material now_ms s.key_material))

  -- A key that the check lets through at a time.
  abbrev pub IsApplicable : ℕ → OsnmaKeyMaterial → Type 0
  IsApplicable now_ms key =
      (length (from_hex key.public_key_hex) ≡ 33)
      × ((first_byte (from_hex key.public_key_hex) ≡ 2)
          ⊎ (first_byte (from_hex key.public_key_hex) ≡ 3))
      × (length (from_hex key.merkle_root_hex) ≡ 32)
      × (key.applicability_ms ≤ now_ms)

  verify_iff :
      (now_ms : ℕ) (key : OsnmaKeyMaterial) (r : OsnmaVerificationResult)
      → (verify_osnma_key_material now_ms key ≡ ok r)
        ↔ (IsApplicable now_ms key × (r ≡ result_of now_ms key))
  unfolding verify_osnma_key_material
  verify_iff now_ms key r = (λ e. (ground arith, ground arith), λ (h, e). ground arith)

  then_ok :
      (now_ms : ℕ) (s s' : OsnmaTimeSource) (m : Result OsnmaVerificationResult) (out : TimeReading)
      → (verified_then now_ms s m ≡ (s', ok out)) ↔ (
          (r : OsnmaVerificationResult) × (m ≡ ok r)
          × (s' ≡ record s { verification_result = some r })
          × (out ≡ reading_at now_ms))
  then_ok now_ms s s' (err e) out = (λ h. cc, λ (r, h, _, _). cc)
  then_ok now_ms s s' (ok r) out = (λ h. (r, refl, cc, cc), λ (r', e, f, g). rw (f, g) cc)

  -- A new source gives a time exactly when its key material, the default where none is given, has a
  -- compressed point of 33 bytes, a root of 32 bytes and a date that is past; the time is the local
  -- clock's, whatever the key is. Once it gave one it always does, at whatever time it is asked,
  -- without checking the key material again.
  pub get_time_iff :
      (given : PartialKeyMaterial) (now_ms later_ms : ℕ) (s' : OsnmaTimeSource) (out : TimeReading)
      → let s = new_osnma_time_source given in
        ((get_time now_ms s ≡ (s', ok out)) ↔ (
          IsApplicable now_ms s.key_material
          × (s' ≡ record s { verification_result = some (result_of now_ms s.key_material) })
          × (out ≡ reading_at now_ms)))
        × (get_time now_ms s ≡ (s', ok out) → get_time later_ms s' ≡ (s', ok (reading_at later_ms)))
  unfolding get_time new_osnma_time_source
  get_time_iff given now_ms later_ms s' out =
      let s = new_osnma_time_source given in
      let key = s.key_material in
      let m = verify_osnma_key_material now_ms key in
      (
        (
          λ e.
              let (r, made, f, g) = (then_ok now_ms s s' m out).0 e in
              let (h, same) = (verify_iff now_ms key r).0 made in
              (h, f ∙ ap (λ r. record s { verification_result = some r }) same, g),
          λ (h, f, g). (then_ok now_ms s s' m out).1 (
            result_of now_ms key,
            (verify_iff now_ms key (result_of now_ms key)).1 (h, refl),
            f,
            g,
          ),
        ),
        λ e. let (r, made, f, g) = (then_ok now_ms s s' m out).0 e in rw f refl,
      )
