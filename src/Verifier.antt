-- ===== src/Verifier.antt =====
-- The PoT verifier (src/pot_verifier.ts) over a TLS session (src/tls_binding.ts). TLS, Ed25519 and
-- the nonce cache are parameters; the in-memory cache is `Verifier.NonceCache`.
pub mod Binding
pub mod NonceCache
pub mod Accept
pub mod Replay
mod Tests
use open_ttt.Prelude.{
  ℕ, ◌+◌, ◌/◌, ◌%◌, Bool, true, false, not, Option, none, some, Text, ℤ, sub_ℕ, length, subarray,
  ltb, ◌==◌, if◌then◌else◌, to_hex,
}
use open_ttt.PotFrame.{PotFrame, ok, err, decode_pot_frame, pot_record_without_sig, pot_frame_size}
use open_ttt.Verifier.Binding.{Socket, Checked, matches, differs, not_tls, verify_binding_key}

pub data VerifyError : Type 0 where
  unknown_version binding_key_mismatch hmac_context_failure signature_invalid : VerifyError
  submission_outside_tolerance nonce_replay frame_malformed : VerifyError

pub record VerifyResult : Type 0 where
  pub valid : Bool
  pub error : Option VerifyError
  pub frame : Option PotFrame
  pub latency_ms : Option ℤ

-- `verify` returns a result, or lets an error of a callee through.
pub data Outcome : Type 0 where
  returned : VerifyResult → Outcome
  tls_error : Outcome
  frame_error : Outcome

-- `TTTPS_TIER_TOLERANCE_MS[tier] ?? TTTPS_TIER_TOLERANCE_MS[1]`.
unfoldable pub tier_tolerance_ms : ℕ → ℕ
tier_tolerance_ms tier =
    if tier == 0 then 60000 else if tier == 2 then 12000 else if tier == 3 then 100 else 2000

-- The cache that `VerifierConfig` asks for; `Date.now()` is an argument.
pub record NonceOps (Cache : Type 0) : Type 0 where
  pub has : ℕ → Text → Cache → Cache × Bool
  pub add : ℕ → Text → Cache → Cache

abbrev pub refused : VerifyError → Option PotFrame → Option ℤ → Outcome
refused e f l = returned (record { valid = false; error = some e; frame = f; latency_ms = l })

abbrev pub accepted : PotFrame → ℤ → Outcome
accepted f l = returned (record { valid = true; error = none; frame = some f; latency_ms = some l })

-- The timestamp in milliseconds, `timestamp / 1_000_000n`.
abbrev pub timestamp_ms : PotFrame → ℕ
timestamp_ms f = f.timestamp / 1000000

-- `crypto.verify` with the issuer's key; `none` is a throw, which counts as a bad signature.
abbrev pub signature_holds : Option Bool → Bool
signature_holds none = false
signature_holds (some b) = b

module _ {Cache : Type 0} (ops : NonceOps Cache) (crypto_verify : Text → Text → Text → Option Bool)
    (issuer_key : Text) where
  unfoldable pub verify_ed25519 : Text → Text → Bool
  verify_ed25519 bytes signature = signature_holds (crypto_verify issuer_key bytes signature)

  unfoldable pub check_nonce : PotFrame → ℕ → ℕ → Cache → Cache × Outcome
  check_nonce f now_ms clock c =
      let (c', seen) = ops.has clock (to_hex f.nonce) c in
      if seen
      then (c', refused nonce_replay (some f) none)
      else (ops.add clock (to_hex f.nonce) c', accepted f (sub_ℕ now_ms (timestamp_ms f)))

  unfoldable pub check_recency : PotFrame → ℕ → ℕ → Cache → Cache × Outcome
  check_recency f now_ms clock c =
      if ltb (timestamp_ms f + tier_tolerance_ms f.tier) now_ms
      then (c, refused submission_outside_tolerance (some f) (some (sub_ℕ now_ms (timestamp_ms f))))
      else check_nonce f now_ms clock c

  unfoldable pub check_signature : PotFrame → ℕ → ℕ → Cache → Cache × Outcome
  check_signature f now_ms clock c =
      if not (verify_ed25519 (subarray 0 79 f.pot_record) f.ed25519_sig)
      then (c, refused signature_invalid (some f) none)
      else check_recency f now_ms clock c

  unfoldable pub after_binding : PotFrame → ℕ → ℕ → Cache → Checked → Cache × Outcome
  after_binding f now_ms clock c not_tls = (c, tls_error)
  after_binding f now_ms clock c differs = (c, refused binding_key_mismatch (some f) none)
  after_binding f now_ms clock c matches = check_signature f now_ms clock c

  unfoldable pub check_binding : Socket → PotFrame → ℕ → ℕ → Cache → Cache × Outcome
  check_binding socket f now_ms clock c = elim (pot_record_without_sig f.pot_record) [
    | err e ↦ (c, frame_error)
    | ok signed ↦ after_binding f now_ms clock c (verify_binding_key socket signed f.binding_key)
  ]

  unfoldable pub check_version : Socket → PotFrame → ℕ → ℕ → Cache → Cache × Outcome
  check_version socket f now_ms clock c =
      if not (f.version == 1)
      then (c, refused unknown_version none none)
      else check_binding socket f now_ms clock c

  -- `now_ms` is the argument of that name, `clock` is what `Date.now()` gives the cache.
  unfoldable pub verify : Socket → Text → ℕ → ℕ → Cache → Cache × Outcome
  verify socket frame now_ms clock c =
      if not (length frame == pot_frame_size)
      then (c, refused frame_malformed none none)
      else elim (decode_pot_frame frame) [
        | err e ↦ (c, refused frame_malformed none none)
        | ok f ↦ check_version socket f now_ms clock c
      ]
