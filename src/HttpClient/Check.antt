-- ===== src/HttpClient/Check.antt =====
-- What the HTTP-only client's verification accepts (src/http_client.ts).
use mathlib.Core.Bool.{false≢true}
use open_ttt.Prelude.{
  ℕ, ◌+◌, ◌*◌, ◌≤◌, ◌<◌, ◌≡◌, ◌≢◌, refl, sym, ap, ◌∙◌, ◌↔◌, inl, inr, true, not, Option, none, some,
  List, [], ◌∷◌, Text, length, All, text_eq, text_eq→eq, text_eq_refl, ltb, ◌==◌, if◌then◌else◌,
  arith, Bool-cases,
}
use open_ttt.ReplayCache.{NonceMap, nonce_ttl_ms, register}
use open_ttt.ReplayCache.Window.{register_all, register_twice_refused}
use open_ttt.TimeSynthesis.{
  combine, fulfilled, sort_readings, Combined, Floats, TimeReading, SourceReading, abs_diff,
}
use open_ttt.HttpClient.{
  HttpEnv, HttpPot, Options, Verdict, valid, expired, thrown, hmac_mismatch, compute_hmac,
  check_divergence, check_nonce, verify_pot, generate_pot, make_http_pot,
}

abbrev gate : ℕ → ℕ → Text → Text → NonceMap → NonceMap × Verdict → NonceMap × Verdict
gate first_ms expires_at expected given nonces checked =
    if ltb expires_at first_ms
    then (nonces, expired)
    else if not (length expected == length given)
    then (nonces, thrown)
    else if not (text_eq expected given)
    then (nonces, hmac_mismatch)
    else checked

gate_iff :
    (first_ms expires_at : ℕ) (x y : Text) (nonces : NonceMap) (checked : NonceMap × Verdict)
    → ((gate first_ms expires_at x y nonces checked).1 ≡ valid)
      ↔ ((first_ms ≤ expires_at) × (y ≡ x) × (checked.1 ≡ valid))
gate_iff first_ms expires_at x y nonces checked = (
  λ h. (ground arith, sym (text_eq→eq x y (ground arith)), ground arith),
  λ (late, same, good). rw (same, text_eq_refl x) (ground arith),
)

gate_open :
    (first_ms expires_at : ℕ) (x y : Text) (nonces : NonceMap) (checked : NonceMap × Verdict)
    → (gate first_ms expires_at x y nonces checked).1 ≡ valid
    → gate first_ms expires_at x y nonces checked ≡ checked
gate_open first_ms expires_at x y nonces checked h = ground arith

module _ (env : HttpEnv) {F : Type 0} where
  abbrev pub IsNear : ℕ → ℕ → SourceReading F → Type 0
  IsNear tolerance_ns timestamp r = abs_diff r.timestamp timestamp ≤ tolerance_ns

  check_divergence_iff :
      (tolerance_ns timestamp : ℕ) (rs : List (SourceReading F))
      → (check_divergence env tolerance_ns timestamp rs ≡ valid)
        ↔ All (IsNear tolerance_ns timestamp) rs
  unfolding check_divergence
  check_divergence_iff tolerance_ns timestamp [] = (λ _. tt, λ _. refl)
  check_divergence_iff tolerance_ns timestamp (r ∷ rs) =
      ground (arith, check_divergence_iff tolerance_ns timestamp rs)

  -- The bytes of the given HMAC are those of the HMAC of the sealed fields.
  abbrev pub IsSealed : Options → HttpPot F → Type 0
  IsSealed options pot =
      env.from_hex pot.hmac
      ≡ env.from_hex
          (compute_hmac env pot.timestamp pot.nonce pot.expires_at pot.sources options.hmac_secret)

  check_nonce_iff :
      (options : Options) (now_ms : ℕ) (pot : HttpPot F) (nonces : NonceMap)
      → ((check_nonce env options now_ms pot nonces).1 ≡ valid) ↔ (
          ((register now_ms pot.nonce nonces).1 ≡ true)
          × All (IsNear options.tolerance_ns pot.timestamp) pot.source_readings)
  unfolding check_nonce
  check_nonce_iff options now_ms pot nonces =
      ground (arith, check_divergence_iff options.tolerance_ns pot.timestamp pot.source_readings)

  verify_parts :
      (options : Options) (first_ms now_ms : ℕ) (pot : HttpPot F) (nonces : NonceMap)
      → (((verify_pot env options first_ms now_ms pot nonces).1 ≡ valid) ↔ (
          (first_ms ≤ pot.expires_at)
          × IsSealed options pot
          × ((check_nonce env options now_ms pot nonces).1 ≡ valid)))
  unfolding verify_pot
  verify_parts options first_ms now_ms pot nonces =
      gate_iff first_ms pot.expires_at
        (env.from_hex
          (compute_hmac env pot.timestamp pot.nonce pot.expires_at pot.sources options.hmac_secret))
        (env.from_hex pot.hmac) nonces (check_nonce env options now_ms pot nonces)

  -- A proof of time is valid exactly if it has not expired, its HMAC is that of its timestamp, nonce,
  -- expiry and number of sources, its nonce is new, and each of its readings is within the tolerance
  -- of its timestamp.
  pub verify_pot_iff :
      (options : Options) (first_ms now_ms : ℕ) (pot : HttpPot F) (nonces : NonceMap)
      → ((verify_pot env options first_ms now_ms pot nonces).1 ≡ valid) ↔ (
          (first_ms ≤ pot.expires_at)
          × IsSealed options pot
          × ((register now_ms pot.nonce nonces).1 ≡ true)
          × All (IsNear options.tolerance_ns pot.timestamp) pot.source_readings)
  verify_pot_iff options first_ms now_ms pot nonces =
      let (a, b) = verify_parts options first_ms now_ms pot nonces in
      let (c, d) = check_nonce_iff options now_ms pot nonces in
      (
        λ h. let (late, same, good) = a h in let (new, near) = c good in (late, same, new, near),
        λ (late, same, new, near). b (late, same, d (new, near)),
      )

  -- The HMAC does not cover the readings: an accepted proof of time without its readings, and with
  -- any stratum and confidence in it, would have been accepted too.
  pub unsealed_readings :
      (options : Options) (first_ms now_ms : ℕ) (pot : HttpPot F) (nonces : NonceMap)
      (confidence : F) (stratum : ℕ)
      → (verify_pot env options first_ms now_ms pot nonces).1 ≡ valid
      → (verify_pot env options first_ms now_ms
          (record {
            timestamp = pot.timestamp;
            confidence = confidence;
            stratum = stratum;
            sources = pot.sources;
            source_readings = [];
            nonce = pot.nonce;
            expires_at = pot.expires_at;
            hmac = pot.hmac;
          })
          nonces).1
        ≡ valid
  unsealed_readings options first_ms now_ms pot nonces confidence stratum h =
      let (late, same, new, _) = (verify_pot_iff options first_ms now_ms pot nonces).0 h in
      (verify_pot_iff options first_ms now_ms
          (record {
            timestamp = pot.timestamp;
            confidence = confidence;
            stratum = stratum;
            sources = pot.sources;
            source_readings = [];
            nonce = pot.nonce;
            expires_at = pot.expires_at;
            hmac = pot.hmac;
          })
          nonces).1
        (late, same, new, tt)

  make_each-some :
      (make : Combined F → HttpPot F) (m : Option (Combined F)) (pot : HttpPot F)
      → elim m [ none ↦ none | some c ↦ some (make c) ] ≡ some pot
      → (c : Combined F) × (make c ≡ pot)
  make_each-some make none pot h = absurd (ground arith)
  make_each-some make (some c) pot h = (c, ground arith)

  make-IsSealed :
      (options : Options) (expiry_seconds : ℕ) (nonce : Text) (issued_ms : ℕ) (floats : Floats F)
      (readings : List (TimeReading F)) (m : Combined F) (pot : HttpPot F)
      → make_http_pot env options expiry_seconds nonce issued_ms floats readings m ≡ pot
      → IsSealed options pot
        × (pot.nonce ≡ nonce)
        × (pot.expires_at ≡ issued_ms + expiry_seconds * 1000)
  unfolding make_http_pot
  make-IsSealed options expiry_seconds nonce issued_ms floats readings m pot e =
      rw (← e) (refl, refl, refl)

  pub generate-IsSealed :
      (options : Options) (expiry_seconds : ℕ) (nonce : Text) (issued_ms : ℕ) (floats : Floats F)
      (results : List (Option (TimeReading F))) (pot : HttpPot F)
      → generate_pot env options expiry_seconds nonce issued_ms floats results ≡ some pot
      → IsSealed options pot
        × (pot.nonce ≡ nonce)
        × (pot.expires_at ≡ issued_ms + expiry_seconds * 1000)
  unfolding generate_pot
  generate-IsSealed options expiry_seconds nonce issued_ms floats results pot made =
      let readings = sort_readings (fulfilled results) in
      elim (Bool-cases (length (fulfilled results) == 0)) [
        | inl empty ↦ absurd (ground arith)
        | inr some_answer ↦
            let (m, e) =
              make_each-some
                (make_http_pot env options expiry_seconds nonce issued_ms floats readings)
                (combine floats readings) pot (rw some_answer at made) in
            make-IsSealed options expiry_seconds nonce issued_ms floats readings m pot e
      ]

  -- A fresh proof of time is accepted by the client that made it, before it expires, if its nonce is
  -- new and no reading is out of the tolerance.
  pub verify-generate_pot :
      (options : Options) (expiry_seconds : ℕ) (nonce : Text) (issued_ms first_ms now_ms : ℕ)
      (floats : Floats F) (results : List (Option (TimeReading F))) (pot : HttpPot F)
      (nonces : NonceMap)
      → generate_pot env options expiry_seconds nonce issued_ms floats results ≡ some pot
      → first_ms ≤ issued_ms + expiry_seconds * 1000
      → (register now_ms nonce nonces).1 ≡ true
      → All (IsNear options.tolerance_ns pot.timestamp) pot.source_readings
      → (verify_pot env options first_ms now_ms pot nonces).1 ≡ valid
  verify-generate_pot options expiry_seconds nonce issued_ms first_ms now_ms floats results pot
        nonces made early new near =
      let (sealed, same_nonce, same_expiry) =
        generate-IsSealed options expiry_seconds nonce issued_ms floats results pot made in
      (verify_pot_iff options first_ms now_ms pot nonces).1
        (rw same_expiry early, sealed, rw same_nonce new, near)

  check_nonce_nonces :
      (options : Options) (now_ms : ℕ) (pot : HttpPot F) (nonces : NonceMap)
      → (check_nonce env options now_ms pot nonces).0 ≡ (register now_ms pot.nonce nonces).0
  unfolding check_nonce
  check_nonce_nonces options now_ms pot nonces = ground arith

  accepted_nonces :
      (options : Options) (first_ms now_ms : ℕ) (pot : HttpPot F) (nonces : NonceMap)
      → (verify_pot env options first_ms now_ms pot nonces).1 ≡ valid
      → (verify_pot env options first_ms now_ms pot nonces).0 ≡ (register now_ms pot.nonce nonces).0
  unfolding verify_pot
  accepted_nonces options first_ms now_ms pot nonces h =
      ap (λ p. p.0)
        (gate_open first_ms pot.expires_at
          (env.from_hex (
            compute_hmac env pot.timestamp pot.nonce pot.expires_at pot.sources
              options.hmac_secret))
          (env.from_hex pot.hmac) nonces (check_nonce env options now_ms pot nonces) h)
      ∙ check_nonce_nonces options now_ms pot nonces

  -- The proof of time that was accepted is refused as a duplicate for the next five minutes, as long
  -- as fewer than 10000 verifications reach the nonce cache in between.
  pub verify_pot_again :
      (options : Options) (first_ms now_ms later_ms again_ms : ℕ) (pot : HttpPot F)
      (nonces : NonceMap) (es : List (ℕ × Text))
      → (verify_pot env options first_ms now_ms pot nonces).1 ≡ valid
      → All (λ e. e.0 ≤ now_ms + nonce_ttl_ms) es
      → length es < 10000
      → again_ms ≤ now_ms + nonce_ttl_ms
      → (verify_pot env options later_ms again_ms pot
          (register_all es (verify_pot env options first_ms now_ms pot nonces).0)).1
        ≢ valid
  verify_pot_again options first_ms now_ms later_ms again_ms pot nonces es h times few soon again =
      let (_, _, new, _) = (verify_pot_iff options first_ms now_ms pot nonces).0 h in
      let later = register_all es (verify_pot env options first_ms now_ms pot nonces).0 in
      let (_, _, new_again, _) = (verify_pot_iff options later_ms again_ms pot later).0 again in
      let old = register_twice_refused now_ms again_ms pot.nonce es nonces new times few soon in
      false≢true (
        sym old
        ∙ sym (
            ap (λ n. (register again_ms pot.nonce (register_all es n)).1)
              (accepted_nonces options first_ms now_ms pot nonces h))
        ∙ new_again)
