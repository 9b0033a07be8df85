-- ===== src/Verifier/Accept.antt =====
-- When the verifier accepts a frame, and what it does to the nonce cache (src/pot_verifier.ts).
use mathlib.Core.Bool.{false≢true}
use native.Mathlib.Decide.{ℕ_discrete}
use open_ttt.Prelude.{
  ℕ, ◌+◌, ◌≤◌, ◌≡◌, ◌≢◌, refl, sym, ap, ◌∙◌, ◌↔◌, Bool, true, false, Option, none, some, Text,
  length, take, drop, arith, to_hex, length-take, length-drop,
}
use open_ttt.PotFrame.{PotFrame}
use open_ttt.PotFrame.Laws.{decode_lem}
use open_ttt.PotFrame.Validate.{frame_fields, without_sig_lem}
use open_ttt.Verifier.Binding.{
  Socket, Checked, matches, differs, not_tls, verify_binding_key, exported_key,
  verify_binding_key-eq-matches_iff,
}
use open_ttt.Verifier.{
  NonceOps, Outcome, returned, tls_error, frame_error, tier_tolerance_ms, timestamp_ms,
  verify_ed25519, check_nonce, check_recency, check_signature, check_binding, after_binding,
  check_version, verify, refused, frame_malformed,
}

abbrev pub is_accepted : Outcome → Bool
is_accepted (returned r) = r.valid
is_accepted tls_error = false
is_accepted frame_error = false

module _ {Cache : Type 0} (ops : NonceOps Cache) (crypto_verify : Text → Text → Text → Option Bool)
    (issuer_key : Text) where
  -- What holds of a frame that passes every check but the last, on the frame's own bytes.
  pub record IsGenuine (socket : Socket) (frame : Text) (now_ms : ℕ) : Type 0 where
    pub size : length frame ≡ 175
    pub version_one : (frame_fields frame).version ≡ 1
    pub encrypted : socket.encrypted ≡ true
    pub bound :
        exported_key socket (take 79 (frame_fields frame).pot_record)
        ≡ (frame_fields frame).binding_key
    pub signed :
        crypto_verify issuer_key
          (take 79 (frame_fields frame).pot_record)
          (frame_fields frame).ed25519_sig
        ≡ some true
    pub recent :
        now_ms ≤ timestamp_ms (frame_fields frame) + tier_tolerance_ms (frame_fields frame).tier

  abbrev pub IsFresh : Text → ℕ → Cache → Type 0
  IsFresh frame clock c = (ops.has clock (to_hex (frame_fields frame).nonce) c).1 ≡ false

  module _ (f : PotFrame) (now_ms clock : ℕ) (c : Cache) where
    nonce_iff :
        (is_accepted (check_nonce ops crypto_verify issuer_key f now_ms clock c).1 ≡ true)
        ↔ ((ops.has clock (to_hex f.nonce) c).1 ≡ false)
    unfolding check_nonce
    nonce_iff = ground arith

    recency_iff :
        (is_accepted (check_recency ops crypto_verify issuer_key f now_ms clock c).1 ≡ true) ↔ (
          (now_ms ≤ timestamp_ms f + tier_tolerance_ms f.tier)
          × ((ops.has clock (to_hex f.nonce) c).1 ≡ false))
    unfolding check_recency
    recency_iff = ground (arith, nonce_iff)

    signature_iff :
        (is_accepted (check_signature ops crypto_verify issuer_key f now_ms clock c).1 ≡ true) ↔ (
          (crypto_verify issuer_key (take 79 f.pot_record) f.ed25519_sig ≡ some true)
          × (now_ms ≤ timestamp_ms f + tier_tolerance_ms f.tier)
          × ((ops.has clock (to_hex f.nonce) c).1 ≡ false))
    unfolding check_signature verify_ed25519
    signature_iff = ground (arith, recency_iff)

    after_binding_iff :
        (k : Checked)
        → (is_accepted (after_binding ops crypto_verify issuer_key f now_ms clock c k).1 ≡ true) ↔ (
            (k ≡ matches)
            × (is_accepted (check_signature ops crypto_verify issuer_key f now_ms clock c).1
                ≡ true))
    unfolding after_binding
    after_binding_iff matches = ground arith
    after_binding_iff differs = ground arith
    after_binding_iff not_tls = ground arith

    check_binding_lem :
        (socket : Socket)
        → length f.pot_record ≡ 143
        → check_binding ops crypto_verify issuer_key socket f now_ms clock c
          ≡ after_binding ops crypto_verify issuer_key f now_ms clock c
              (verify_binding_key socket (take 79 f.pot_record) f.binding_key)
    unfolding check_binding
    check_binding_lem socket h = rw (without_sig_lem f.pot_record h, check_binding) refl

    binding_iff :
        (socket : Socket)
        → length f.pot_record ≡ 143
        → length f.binding_key ≡ 32
        → (is_accepted (check_binding ops crypto_verify issuer_key socket f now_ms clock c).1
            ≡ true)
          ↔ ((socket.encrypted ≡ true)
              × (exported_key socket (take 79 f.pot_record) ≡ f.binding_key)
              × (crypto_verify issuer_key (take 79 f.pot_record) f.ed25519_sig ≡ some true)
              × (now_ms ≤ timestamp_ms f + tier_tolerance_ms f.tier)
              × ((ops.has clock (to_hex f.nonce) c).1 ≡ false))
    binding_iff socket h k =
        let key = verify_binding_key-eq-matches_iff socket (take 79 f.pot_record) f.binding_key in
        let after =
          after_binding_iff (verify_binding_key socket (take 79 f.pot_record) f.binding_key) in
        let opened = check_binding_lem socket h in
        (
          λ a.
              let (m, s) = after.0 (ap (λ r. is_accepted r.1) (sym opened) ∙ a) in
              let (e, _, b) = key.0 m in
              let (v, r, fresh) = signature_iff.0 s in (e, b, v, r, fresh),
          λ (e, b, v, r, fresh).
              ap (λ r. is_accepted r.1) opened
              ∙ after.1 (key.1 (e, k, b), signature_iff.1 (v, r, fresh)),
        )

    version_iff :
        (socket : Socket)
        → (is_accepted (check_version ops crypto_verify issuer_key socket f now_ms clock c).1
            ≡ true)
          ↔ ((f.version ≡ 1)
              × (is_accepted (check_binding ops crypto_verify issuer_key socket f now_ms clock c).1
                  ≡ true))
    unfolding check_version
    version_iff socket = ground arith

  module _ (socket : Socket) (frame : Text) (now_ms clock : ℕ) (c : Cache) where
    pub verify_sized :
        length frame ≡ 175
        → verify ops crypto_verify issuer_key socket frame now_ms clock c
          ≡ check_version ops crypto_verify issuer_key socket (frame_fields frame) now_ms clock c
    unfolding verify
    verify_sized h = rw h (rw (decode_lem frame h) refl)

    pub verify_unsized :
        length frame ≢ 175
        → verify ops crypto_verify issuer_key socket frame now_ms clock c
          ≡ (c, refused frame_malformed none none)
    unfolding verify
    verify_unsized h = ground arith

    genuine_iff :
        length frame ≡ 175
        → (is_accepted
              (check_binding ops crypto_verify issuer_key socket
                (frame_fields frame)
                now_ms
                clock
                c).1
            ≡ true)
          ↔ ((socket.encrypted ≡ true)
              × (exported_key socket (take 79 (frame_fields frame).pot_record)
                  ≡ (frame_fields frame).binding_key)
              × (crypto_verify issuer_key
                    (take 79 (frame_fields frame).pot_record)
                    (frame_fields frame).ed25519_sig
                  ≡ some true)
              × (now_ms
                  ≤ timestamp_ms (frame_fields frame) + tier_tolerance_ms (frame_fields frame).tier)
              × IsFresh frame clock c)
    genuine_iff h =
        binding_iff (frame_fields frame) now_ms clock c socket
          (omega (arith, length-take 143 (drop 32 frame), length-drop 32 frame))
          (omega (arith, length-take 32 frame))

    -- A frame is accepted exactly when it has 175 bytes and version 1, its binding key is the one
    -- that this TLS session exports for the signed part, the issuer's signature over the first 79
    -- bytes of the record verifies, it is no older than its tier allows, and its nonce is not cached.
    pub verify_accepts_iff :
        (is_accepted (verify ops crypto_verify issuer_key socket frame now_ms clock c).1 ≡ true)
        ↔ (IsGenuine socket frame now_ms × IsFresh frame clock c)
    verify_accepts_iff = elim (ℕ_discrete (length frame) 175) [
      | yes h ↦
          let opened = ap (λ r. is_accepted r.1) (verify_sized h) in
          let version = version_iff (frame_fields frame) now_ms clock c socket in
          (
            λ a.
                let (v, b) = version.0 (sym opened ∙ a) in
                let (e, k, s, r, fresh) = (genuine_iff h).0 b in
                (
                  record {
                    size = h;
                    version_one = v;
                    encrypted = e;
                    bound = k;
                    signed = s;
                    recent = r;
                  },
                  fresh,
                ),
            λ (g, fresh).
                opened
                ∙ version.1 (
                  g.version_one,
                  (genuine_iff h).1 (g.encrypted, g.bound, g.signed, g.recent, fresh),
                ),
          )
      | no h ↦ (
        λ a. absurd (false≢true (sym (ap (λ r. is_accepted r.1) (verify_unsized h)) ∙ a)),
        λ (g, fresh). absurd (h g.size),
      )
    ]
