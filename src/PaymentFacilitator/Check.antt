-- ===== src/PaymentFacilitator/Check.antt =====
-- Which payments the facilitator accepts (mcp/packages/x402-pot/src/index.ts).
use open_ttt.Prelude.{
  ℕ, ◌+◌, ◌*◌, ◌≤◌, ◌≡◌, refl, sym, ap, ◌↔◌, true, Option, none, some, List, [], ◌∷◌, map, All,
  Text, arith,
}
use open_ttt.ReplayCache.{NonceMap, register}
use open_ttt.TimeSynthesis.{Floats, TimeReading, abs_diff}
use open_ttt.HttpClient.{HttpEnv, HttpPot, Options, Verdict, valid, generate_pot}
use open_ttt.HttpClient.Check.{IsNear, IsSealed, generate-IsSealed, verify_pot_iff}
use open_ttt.PaymentFacilitator.{
  X402BasePayment, PotFields, X402PotPayment, answer, fields_of, attach, create_payment_with_pot,
  reading_of, reconstructed, verify_fields, verify_payment_pot,
}

module _ (env : HttpEnv) (big_int : Text → Option ℕ) {F : Type 0} (five_hundred : F) where
  no_distance : (t : ℕ) → abs_diff t t ≡ 0
  no_distance t = ground arith

  -- The readings that are made up are never out of the tolerance.
  made_up-IsNear :
      (tolerance t : ℕ) (names : List Text)
      → All (IsNear env tolerance t) (map (reading_of env big_int five_hundred t) names)
  made_up-IsNear tolerance t [] = tt
  made_up-IsNear tolerance t (n ∷ ns) =
      (rw (no_distance t) (omega arith), made_up-IsNear tolerance t ns)

  answer_injective : {v w : Verdict} → answer v ≡ answer w → v ≡ w
  answer_injective e = cc

  -- The fields are accepted exactly if they have not expired, are sealed and have a new nonce.
  verify_numbers_iff :
      (options : Options) (first_ms now_ms : ℕ) (p : PotFields F) (t e : ℕ) (nonces : NonceMap)
      → ((verify_fields env big_int five_hundred options first_ms now_ms p
            (some t)
            (some e)
            nonces).1
          ≡ answer valid)
        ↔ ((first_ms ≤ e)
            × IsSealed env options (reconstructed env big_int five_hundred p t e)
            × ((register now_ms p.nonce nonces).1 ≡ true))
  verify_numbers_iff options first_ms now_ms p t e nonces =
      let (a, b) =
        verify_pot_iff env options first_ms now_ms (reconstructed env big_int five_hundred p t e)
          nonces in
      (
        λ h. let (late, sealed, new, _) = a (answer_injective h) in (late, sealed, new),
        λ (late, sealed, new).
            ap answer (b (late, sealed, new, made_up-IsNear options.tolerance_ns t p.source_names)),
      )

  read_iff :
      (options : Options) (first_ms now_ms : ℕ) (p : PotFields F) (a b : Option ℕ)
      (nonces : NonceMap)
      → ((verify_fields env big_int five_hundred options first_ms now_ms p a b nonces).1
          ≡ answer valid)
        ↔ ((t : ℕ) × (e : ℕ) × (a ≡ some t)
            × (b ≡ some e)
            × (first_ms ≤ e)
            × IsSealed env options (reconstructed env big_int five_hundred p t e)
            × ((register now_ms p.nonce nonces).1 ≡ true))
  read_iff options first_ms now_ms p none b nonces =
      (λ h. absurd (ground arith), λ (t, e, h, _, _, _, _). absurd (ground arith))
  read_iff options first_ms now_ms p (some t) none nonces =
      (λ h. absurd (ground arith), λ (t', e, _, h, _, _, _). absurd (ground arith))
  read_iff options first_ms now_ms p (some t) (some e) nonces =
      let (there, back) = verify_numbers_iff options first_ms now_ms p t e nonces in
      (
        λ h. let (late, sealed, new) = there h in (t, e, refl, refl, late, sealed, new),
        λ (t', e', same_t, same_e, late, sealed, new).
            let et : t ≡ t' = cc in let ee : e ≡ e' = cc in back (rw (et, ee) (late, sealed, new)),
      )

  -- A payment is accepted exactly if its two numbers can be read, it has not expired, its HMAC is that
  -- of its timestamp, nonce, expiry and number of sources, and its nonce is new; the readings, of
  -- which only the names are kept, never refuse it.
  pub verify_payment_iff :
      (options : Options) (first_ms now_ms : ℕ) (payment : X402PotPayment F) (p : PotFields F)
      (nonces : NonceMap)
      → payment.extra ≡ some p
      → ((verify_payment_pot env big_int five_hundred options first_ms now_ms payment nonces).1
          ≡ answer valid)
        ↔ ((t : ℕ) × (e : ℕ) × (big_int p.timestamp ≡ some t)
            × (big_int p.expires_at ≡ some e)
            × (first_ms ≤ e)
            × IsSealed env options (reconstructed env big_int five_hundred p t e)
            × ((register now_ms p.nonce nonces).1 ≡ true))
  unfolding verify_payment_pot
  verify_payment_iff options first_ms now_ms payment p nonces has =
      rw has
        (read_iff options first_ms now_ms p (big_int p.timestamp) (big_int p.expires_at) nonces)

  attach-some :
      (payment : X402BasePayment) (made : Option (HttpPot F)) (paid : X402PotPayment F)
      → attach env big_int five_hundred payment made ≡ some paid
      → (pot : HttpPot F) × (made ≡ some pot)
        × (paid.extra ≡ some (fields_of env big_int five_hundred pot))
  attach-some payment none paid h = absurd (ground arith)
  attach-some payment (some pot) paid h =
      let same : record { payment = payment; extra = some (fields_of env big_int five_hundred pot) }
          ≡ paid =
        cc in
      (pot, refl, ap (λ x. x.extra) (sym same))

  -- A payment that was created with a proof of time is accepted, by a facilitator with the same
  -- secret, as long as it has not expired and its nonce is new, however far apart the sources were;
  -- provided that a number can be read from its decimal text.
  pub verify-create_payment :
      (options : Options) (expiry_seconds : ℕ) (nonce : Text) (issued_ms first_ms now_ms : ℕ)
      (floats : Floats F) (results : List (Option (TimeReading F))) (payment : X402BasePayment)
      (paid : X402PotPayment F) (nonces : NonceMap)
      → ((n : ℕ) → big_int (env.decimal n) ≡ some n)
      → create_payment_with_pot env big_int five_hundred options expiry_seconds nonce issued_ms
          floats results payment
        ≡ some paid
      → first_ms ≤ issued_ms + expiry_seconds * 1000
      → (register now_ms nonce nonces).1 ≡ true
      → (verify_payment_pot env big_int five_hundred options first_ms now_ms paid nonces).1
        ≡ answer valid
  unfolding create_payment_with_pot
  verify-create_payment options expiry_seconds nonce issued_ms first_ms now_ms floats results
        payment paid nonces reads made early new =
      let (pot, generated, has) =
        attach-some payment (generate_pot env options expiry_seconds nonce issued_ms floats results)
          paid made in
      let (sealed, same_nonce, same_expiry) =
        generate-IsSealed env options expiry_seconds nonce issued_ms floats results pot generated in
      (verify_payment_iff options first_ms now_ms paid (fields_of env big_int five_hundred pot)
          nonces has).1
        (
          pot.timestamp,
          pot.expires_at,
          reads pot.timestamp,
          reads pot.expires_at,
          rw same_expiry early,
          sealed,
          rw same_nonce new,
        )
