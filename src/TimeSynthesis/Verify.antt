-- ===== src/TimeSynthesis/Verify.antt =====
-- Verification of a proof of time: what is accepted, and replay (src/time_synthesis.ts).
use native.Mathlib.Decide.{dec_lt}
use open_ttt.Prelude.{
  ℕ, suc, ◌+◌, ◌≤◌, ◌<◌, ◌≡◌, ◌↔◌, ◌⊎◌, inl, inr, true, false, List, [], ◌∷◌, Text, length, All,
  arith,
}
use open_ttt.ReplayCache.{NonceMap, nonce_ttl_ms, register}
use open_ttt.ReplayCache.Bounds.{IsBounded, register-IsBounded}
use open_ttt.ReplayCache.Window.{Held, Held-register, Held-register_self, Held-refused, Held-le}
use open_ttt.TimeSynthesis.{Floats, ProofOfTime, accepted, rejected, verify_proof_of_time}
use open_ttt.TimeSynthesis.Readings.{IsWithin, floor_of, floor_of_lem, check_readings_iff}

module _ {F : Type 0} (floats : Floats F) where
  module _ (now_ms : ℕ) (pot : ProofOfTime F) (m : NonceMap) where
    -- A proof is accepted exactly when it has a reading, a positive confidence, has not expired,
    -- its nonce is new to the cache, and every reading is as near to the timestamp as its own
    -- uncertainty says, or as 10 milliseconds if the proof or one of its readings is of stratum 1 or
    -- better, 25 if the best is of stratum 2, and 50 if all are worse.
    pub verify_iff : ((verify_proof_of_time floats now_ms pot m).1 ≡ accepted) ↔ (
        (0 < length pot.source_readings)
        × (floats.is_not_positive pot.confidence ≡ false)
        × (now_ms ≤ pot.expires_at)
        × ((register now_ms pot.nonce m).1 ≡ true)
        × All (IsWithin floats (floor_of floats pot) pot.timestamp) pot.source_readings)
    unfolding verify_proof_of_time
    verify_iff = rw (floor_of_lem floats pot) (
        ground (
          arith,
          check_readings_iff floats (floor_of floats pot) pot.timestamp pot.source_readings,
        ))

    verify_nonces :
        ((verify_proof_of_time floats now_ms pot m).0 ≡ m)
        ⊎ ((verify_proof_of_time floats now_ms pot m).0 ≡ (register now_ms pot.nonce m).0)
    unfolding verify_proof_of_time
    verify_nonces = ground arith

    pub verify_accepted_nonces :
        (verify_proof_of_time floats now_ms pot m).1 ≡ accepted
        → ((verify_proof_of_time floats now_ms pot m).0 ≡ (register now_ms pot.nonce m).0)
    unfolding verify_proof_of_time
    verify_accepted_nonces e = ground arith

    verify_refused :
        (register now_ms pot.nonce m).1 ≡ false
        → (verify_proof_of_time floats now_ms pot m).1 ≡ rejected
    unfolding verify_proof_of_time
    verify_refused e = ground arith

    verify_expired :
        pot.expires_at < now_ms → (verify_proof_of_time floats now_ms pot m).1 ≡ rejected
    unfolding verify_proof_of_time
    verify_expired e = ground arith

  -- The nonces after verifications at given times.
  abbrev pub verify_all : List (ℕ × ProofOfTime F) → NonceMap → NonceMap
  verify_all [] m = m
  verify_all ((at, pot) ∷ cs) m = verify_all cs (verify_proof_of_time floats at pot m).0

  Held-verify :
      (at : ℕ) (pot : ProofOfTime F) (k : Text) (t n : ℕ) (m : NonceMap)
      → at ≤ t + nonce_ttl_ms
      → n + 1 < 10000
      → Held k t n m
      → Held k t (n + 1) (verify_proof_of_time floats at pot m).0
  Held-verify at pot k t n m q r h = elim (verify_nonces at pot m) [
    | inl same ↦ rw same (Held-le k t n (n + 1) m (omega arith) h)
    | inr added ↦ rw added (Held-register at pot.nonce k t n m q r h)
  ]

  Held-verify_all :
      (cs : List (ℕ × ProofOfTime F)) (k : Text) (t n u : ℕ) (m : NonceMap)
      → All (λ c. c.0 ≤ u) cs
      → u ≤ t + nonce_ttl_ms
      → n + length cs < 10000
      → Held k t n m
      → Held k t (n + length cs) (verify_all cs m)
  Held-verify_all [] k t n u m q v r h = Held-le k t n (n + 0) m (omega arith) h
  Held-verify_all ((at, pot) ∷ cs) k t n u m (q, qs) v r h =
      Held-le k t (n + 1 + length cs) (n + suc (length cs)) _ (omega arith) (
        Held-verify_all cs k t (n + 1) u _ qs v (omega arith)
          (Held-verify at pot k t n m (omega arith) (omega arith) h))

  -- Once a proof was accepted at time t, no proof with its nonce that expires within five minutes
  -- of t is accepted later, whatever fewer than 10000 verifications come in between.
  pub replay_rejected :
      (t u : ℕ) (pot again : ProofOfTime F) (cs : List (ℕ × ProofOfTime F)) (m : NonceMap)
      → (verify_proof_of_time floats t pot m).1 ≡ accepted
      → All (λ c. c.0 ≤ u) cs
      → length cs < 10000
      → again.nonce ≡ pot.nonce
      → again.expires_at ≤ t + nonce_ttl_ms
      → (verify_proof_of_time floats u again
          (verify_all cs (verify_proof_of_time floats t pot m).0)).1
        ≡ rejected
  replay_rejected t u pot again cs m ok qs r same soon = elim (dec_lt again.expires_at u) [
    | yes late ↦ verify_expired u again _ late
    | no early ↦
        let held : Held pot.nonce t 0 (verify_proof_of_time floats t pot m).0 =
          rw (verify_accepted_nonces t pot m ok)
            (Held-register_self t pot.nonce m ((verify_iff t pot m).0 ok).3) in
        verify_refused u again _ (
          rw same (
            Held-refused u pot.nonce t (0 + length cs) _ (omega arith)
              (Held-verify_all cs pot.nonce t 0 u _ qs (omega arith) (omega arith) held)))
  ]

  -- Whatever proofs are verified, the instance keeps at most 10000 nonces, each once.
  pub verify_all-IsBounded :
      (cs : List (ℕ × ProofOfTime F)) (m : NonceMap) → IsBounded m → IsBounded (verify_all cs m)
  verify_all-IsBounded [] m b = b
  verify_all-IsBounded ((at, pot) ∷ cs) m b = elim (verify_nonces at pot m) [
    | inl same ↦ rw same (verify_all-IsBounded cs m b)
    | inr added ↦ rw added (verify_all-IsBounded cs _ (register-IsBounded at pot.nonce m b))
  ]
