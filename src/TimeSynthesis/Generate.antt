-- ===== src/TimeSynthesis/Generate.antt =====
-- Generation of a proof of time (src/time_synthesis.ts): what a generated proof holds, and that the
-- instance that generated it does not accept it any more.
use mathlib.Core.Path.{subst}
use open_ttt.Prelude.{
  ℕ, ◌+◌, ◌*◌, ◌≤◌, ◌<◌, ◌≡◌, refl, sym, ap, Option, none, some, List, Text, length, All, count_if,
  arith, Bool-cases, inl, inr, ◌==◌, length-map,
}
use open_ttt.ReplayCache.{NonceMap}
use open_ttt.TimeSynthesis.{
  Floats, TimeReading, Combined, ProofOfTime, Result, SynthesisError, ok, err, Verdict, accepted,
  rejected, thrown, fulfilled, sort_readings, combine, source_readings_of, verify_proof_of_time,
  settle, make_pot, finish_pot, generate_proof_of_time,
}
use open_ttt.TimeSynthesis.Median.{in_range, combine-sort_in_range}
use open_ttt.TimeSynthesis.Verify.{verify_all, replay_rejected}

pair_eq : {r : NonceMap × Verdict} {m : NonceMap} {v : Verdict} → r.0 ≡ m → r.1 ≡ v → r ≡ (m, v)
pair_eq e f = λ i. (e i, f i)

module _ {F : Type 0} (floats : Floats F) where
  -- What a returned proof holds, by the answers of the sources and the arguments.
  pub record IsMadeFrom (results : List (Option (TimeReading F))) (nonce : Text) (issued_ms : ℕ)
      (pot : ProofOfTime F) : Type 0 where
    pub combined : Combined F
    pub from_sorted : combine floats (sort_readings (fulfilled results)) ≡ some combined
    pub timestamp : pot.timestamp ≡ combined.timestamp
    pub sources : pot.sources ≡ length pot.source_readings
    pub readings : pot.source_readings ≡ source_readings_of (sort_readings (fulfilled results))
    pub nonce_given : pot.nonce ≡ nonce
    pub expires : pot.expires_at ≡ issued_ms + 60000

  settle-eq-ok :
      (p pot : ProofOfTime F) (m' : NonceMap) (r : NonceMap × Verdict)
      → settle floats p r ≡ (m', ok pot)
      → (p ≡ pot) × (r.0 ≡ m') × (r.1 ≡ accepted)
  settle-eq-ok p pot m' (m, accepted) e = ground arith
  settle-eq-ok p pot m' (m, rejected) e = cc
  settle-eq-ok p pot m' (m, thrown) e = cc

  length_of_made :
      (made pot : ProofOfTime F)
      → made ≡ pot
      → made.sources ≡ length made.source_readings
      → pot.sources ≡ length pot.source_readings
  length_of_made made pot same e = subst (λ p. p.sources ≡ length p.source_readings) same e

  failed_absurd :
      {m m' : NonceMap} {pot : ProofOfTime F} {e : SynthesisError}
      → ◌≡◌ {A = NonceMap × Result (ProofOfTime F)} (m, err e) (m', ok pot)
      → ⊥
  failed_absurd h = cc

  module _ (results : List (Option (TimeReading F))) (nonce : Text) (issued_ms now_ms : ℕ)
      (m m' : NonceMap) (pot : ProofOfTime F) where
    finish_sound :
        (o : Option (Combined F))
        → combine floats (sort_readings (fulfilled results)) ≡ o
        → finish_pot floats
            (length results)
            nonce
            issued_ms
            now_ms
            (sort_readings (fulfilled results))
            m
            o
          ≡ (m', ok pot)
        → IsMadeFrom results nonce issued_ms pot
          × (verify_proof_of_time floats now_ms pot m ≡ (m', accepted))
    unfolding finish_pot make_pot
    finish_sound none e h = cc
    finish_sound (some c) e h =
        let readings = sort_readings (fulfilled results) in
        let made = make_pot floats (length results) nonce issued_ms readings c in
        let (same, state, self) =
          settle-eq-ok made pot m' (verify_proof_of_time floats now_ms made m) h in
        (
          record {
            combined = c;
            from_sorted = e;
            timestamp = ap (λ p. p.timestamp) (sym same);
            sources = length_of_made made pot same (sym (length-map readings _));
            readings = ap (λ p. p.source_readings) (sym same);
            nonce_given = ap (λ p. p.nonce) (sym same);
            expires = ap (λ p. p.expires_at) (sym same);
          },
          rw (← same) (pair_eq state self),
        )

    -- A proof that is returned was combined from the sorted readings, carries them with the nonce
    -- and an expiry a minute after its stamp, and was accepted by the instance's own verification.
    pub generate_sound :
        generate_proof_of_time floats results nonce issued_ms now_ms m ≡ (m', ok pot)
        → IsMadeFrom results nonce issued_ms pot
          × (verify_proof_of_time floats now_ms pot m ≡ (m', accepted))
    unfolding generate_proof_of_time
    generate_sound h = elim (Bool-cases (length (fulfilled results) == 0)) [
      | inl empty ↦ absurd (failed_absurd (rw empty at h))
      | inr answered ↦ finish_sound _ refl (rw answered at h)
    ]

    -- The self-verification uses up the nonce: the instance that generated a proof refuses it at
    -- every later time, whatever fewer than 10000 verifications come in between.
    pub verify-generate_rejected :
        (u : ℕ) (cs : List (ℕ × ProofOfTime F))
        → generate_proof_of_time floats results nonce issued_ms now_ms m ≡ (m', ok pot)
        → issued_ms ≤ now_ms
        → All (λ c. c.0 ≤ u) cs
        → length cs < 10000
        → (verify_proof_of_time floats u pot (verify_all floats cs m')).1 ≡ rejected
    verify-generate_rejected u cs h order qs r =
        let (made, self) = generate_sound h in
        rw (← ap (λ p. p.0) self) (
          replay_rejected floats now_ms u pot pot cs m (ap (λ p. p.1) self) qs r refl
            (omega (arith, made.expires)))

    -- If more than half of the readings that arrived lie in a range of times, the timestamp of a
    -- returned proof lies in it too.
    pub generate_in_range :
        (lo hi : ℕ)
        → generate_proof_of_time floats results nonce issued_ms now_ms m ≡ (m', ok pot)
        → length (fulfilled results) < 2 * count_if (in_range lo hi) (fulfilled results)
        → (lo ≤ pot.timestamp) × (pot.timestamp ≤ hi)
    generate_in_range lo hi h most =
        let (made, _) = generate_sound h in
        rw made.timestamp (
          combine-sort_in_range floats lo hi (fulfilled results) made.combined most
            made.from_sorted)
