-- ===== src/Verifier/Replay.antt =====
-- Replay of frames against the verifier and its nonce cache (src/pot_verifier.ts).
use mathlib.Core.Bool.{false≢true}
use native.Mathlib.Decide.{ℕ_discrete}
use open_ttt.Prelude.{
  ℕ, ◌+◌, ◌≤◌, ◌<◌, ◌≡◌, refl, sym, ◌∙◌, ◌⊎◌, inl, inr, Bool, true, false, Option, List, [], ◌∷◌,
  Text, length, All, arith, to_hex, Bool-cases,
}
use open_ttt.PotFrame.{PotFrame, ok, err, pot_record_without_sig}
use open_ttt.PotFrame.Validate.{frame_fields}
use open_ttt.Verifier.Binding.{Socket, Checked, matches, differs, not_tls, verify_binding_key}
use open_ttt.Verifier.NonceCache.{IsRemembering, Memory, memory_nonce_cache, has_expired}
use open_ttt.Verifier.Accept.{
  is_accepted, IsGenuine, IsFresh, verify_accepts_iff, verify_sized, verify_unsized,
}
use open_ttt.Verifier.{
  NonceOps, Outcome, tier_tolerance_ms, timestamp_ms, check_nonce, check_recency, check_signature,
  after_binding, check_binding, check_version, verify,
}

-- One call of the verifier at a time of the clock.
pub record Call : Type 0 where
  pub socket : Socket
  pub frame : Text
  pub at : ℕ

abbrev pub IsBetween : ℕ → ℕ → Call → Type 0
IsBetween t u k = (t ≤ k.at) × (k.at ≤ u)

tolerance_le : (tier : ℕ) → tier_tolerance_ms tier ≤ 60000
unfolding tier_tolerance_ms
tolerance_le tier = ground arith

module _ {Cache : Type 0} (ops : NonceOps Cache) (crypto_verify : Text → Text → Text → Option Bool)
    (issuer_key : Text) where
  -- What a call may do to the cache, by its outcome.
  abbrev pub IsCacheStep : Text → ℕ → Cache → Cache × Outcome → Type 0
  IsCacheStep nonce clock c r =
      ((is_accepted r.1 ≡ true) × (r.0 ≡ ops.add clock nonce (ops.has clock nonce c).0))
      ⊎ ((is_accepted r.1 ≡ false) × ((r.0 ≡ c) ⊎ (r.0 ≡ (ops.has clock nonce c).0)))

  module _ (f : PotFrame) (now_ms clock : ℕ) (c : Cache) where
    nonce_step :
        IsCacheStep
          (to_hex f.nonce)
          clock
          c
          (check_nonce ops crypto_verify issuer_key f now_ms clock c)
    unfolding check_nonce
    nonce_step = elim (Bool-cases (ops.has clock (to_hex f.nonce) c).1) [
      | inl seen ↦ rw seen (inr (refl, inr refl))
      | inr new ↦ rw new (inl (refl, refl))
    ]

    recency_step :
        IsCacheStep
          (to_hex f.nonce)
          clock
          c
          (check_recency ops crypto_verify issuer_key f now_ms clock c)
    unfolding check_recency
    recency_step = ground (arith, nonce_step)

    signature_step :
        IsCacheStep
          (to_hex f.nonce)
          clock
          c
          (check_signature ops crypto_verify issuer_key f now_ms clock c)
    unfolding check_signature
    signature_step = ground (arith, recency_step)

    after_step :
        (k : Checked)
        → IsCacheStep
            (to_hex f.nonce)
            clock
            c
            (after_binding ops crypto_verify issuer_key f now_ms clock c k)
    unfolding after_binding
    after_step matches = signature_step
    after_step differs = inr (refl, inl refl)
    after_step not_tls = inr (refl, inl refl)

    binding_step :
        (socket : Socket)
        → IsCacheStep
            (to_hex f.nonce)
            clock
            c
            (check_binding ops crypto_verify issuer_key socket f now_ms clock c)
    unfolding check_binding
    binding_step socket =
        elim (pot_record_without_sig f.pot_record)
          as (λ r. IsCacheStep (to_hex f.nonce) clock c (elim r [
            | err e ↦ (c, Outcome.frame_error)
            | ok signed ↦
                after_binding ops crypto_verify issuer_key f now_ms clock c
                  (verify_binding_key socket signed f.binding_key)
          ])) [
            | err e ↦ inr (refl, inl refl)
            | ok signed ↦ after_step (verify_binding_key socket signed f.binding_key)
          ]

    version_step :
        (socket : Socket)
        → IsCacheStep
            (to_hex f.nonce)
            clock
            c
            (check_version ops crypto_verify issuer_key socket f now_ms clock c)
    unfolding check_version
    version_step socket = ground (arith, binding_step socket)

  -- After a call the cache has the frame's nonce added if the frame was accepted; otherwise it is
  -- as it was, but that the query for the nonce may have been made.
  pub verify_cache :
      (socket : Socket) (frame : Text) (now_ms clock : ℕ) (c : Cache)
      → IsCacheStep
          (to_hex (frame_fields frame).nonce)
          clock
          c
          (verify ops crypto_verify issuer_key socket frame now_ms clock c)
  verify_cache socket frame now_ms clock c = elim (ℕ_discrete (length frame) 175) [
    | yes h ↦
        rw (verify_sized ops crypto_verify issuer_key socket frame now_ms clock c h)
          (version_step (frame_fields frame) now_ms clock c socket)
    | no h ↦
        rw (verify_unsized ops crypto_verify issuer_key socket frame now_ms clock c h)
          (inr (refl, inl refl))
  ]

  abbrev pub call : Call → Cache → Cache × Outcome
  call k c = verify ops crypto_verify issuer_key k.socket k.frame k.at k.at c

  -- The cache after a sequence of calls.
  abbrev pub run : List Call → Cache → Cache
  run [] c = c
  run (k ∷ ks) c = run ks (call k c).0

  module _ {window : ℕ} (laws : IsRemembering ops window) where
    Held-call :
        (k : Call) (t : ℕ) (n : Text) (c : Cache)
        → laws.Held t n c
        → k.at ≤ t
        → t ≤ k.at + window
        → laws.Held t n (call k c).0
    Held-call k t n c held early late =
        let kept = laws.has_keep t k.at n (to_hex (frame_fields k.frame).nonce) c held early in
        elim (verify_cache k.socket k.frame k.at k.at c) [
          | inl (_, e) ↦ rw e (laws.add_keep t k.at n _ _ kept early late)
          | inr (_, inl e) ↦ rw e held
          | inr (_, inr e) ↦ rw e kept
        ]

    Held-run :
        (ks : List Call) (t u v : ℕ) (n : Text) (c : Cache)
        → All (IsBetween u v) ks
        → v ≤ t
        → t ≤ u + window
        → laws.Held t n c
        → laws.Held t n (run ks c)
    Held-run [] t u v n c between early late held = held
    Held-run (k ∷ ks) t u v n c ((lo, hi), between) early late held =
        Held-run ks t u v n (call k c).0 between early late
          (Held-call k t n c held (omega arith) (omega arith))

    Held-accepted :
        (k : Call) (c : Cache)
        → is_accepted (call k c).1 ≡ true
        → laws.Held (k.at + window) (to_hex (frame_fields k.frame).nonce) (call k c).0
    Held-accepted k c a = elim (verify_cache k.socket k.frame k.at k.at c) [
      | inl (_, e) ↦ rw e (laws.add_held k.at _ _)
      | inr (r, _) ↦ absurd (false≢true (sym r ∙ a))
    ]

    -- With a cache that remembers a nonce for at least a minute, and a clock that does not run
    -- backwards: once a frame is accepted, no later frame with its nonce is accepted, on whatever
    -- session and after whatever calls in between, if that frame is not stamped later than the
    -- moment of the first acceptance.
    pub replay_refused :
        (first second : Call) (between : List Call) (c : Cache)
        → 60000 ≤ window
        → is_accepted (call first c).1 ≡ true
        → All (IsBetween first.at second.at) between
        → first.at ≤ second.at
        → to_hex (frame_fields second.frame).nonce ≡ to_hex (frame_fields first.frame).nonce
        → timestamp_ms (frame_fields second.frame) ≤ first.at
        → is_accepted (call second (run between (call first c).0)).1 ≡ false
    replay_refused first second between c wide a inside later same stamped =
        elim (Bool-cases (is_accepted (call second (run between (call first c).0)).1)) [
          | inr refused ↦ refused
          | inl again ↦
              let (genuine, fresh) =
                (verify_accepts_iff ops crypto_verify issuer_key second.socket second.frame
                    second.at second.at (run between (call first c).0)).0
                  again in
              let soon : second.at ≤ first.at + window =
                omega (arith, genuine.recent, tolerance_le (frame_fields second.frame).tier) in
              let held =
                Held-run between (first.at + window) first.at second.at _ _ inside soon
                  (omega arith) (Held-accepted first c a) in
              absurd (
                false≢true
                  (sym fresh ∙ laws.has_held (first.at + window) second.at _ _ (rw same held) soon))
        ]

forgotten :
    (crypto_verify : Text → Text → Text → Option Bool) (issuer_key : Text) (ttl_ms : ℕ)
    (socket : Socket) (frame : Text) (t u : ℕ) (c : Memory)
    → let ops = memory_nonce_cache ttl_ms in
      let (c', first) = verify ops crypto_verify issuer_key socket frame t t c in
      is_accepted first ≡ true → t + ttl_ms < u → IsFresh ops crypto_verify issuer_key frame u c'
forgotten crypto_verify issuer_key ttl_ms socket frame t u c a late =
    elim (verify_cache (memory_nonce_cache ttl_ms) crypto_verify issuer_key socket frame t t c) [
      | inl (_, e) ↦ rw e (has_expired ttl_ms t u _ _ late)
      | inr (r, _) ↦ absurd (false≢true (sym r ∙ a))
    ]

-- The in-memory cache forgets a nonce after its time to live while the recency check has no lower
-- bound: a frame stamped far enough in the future is accepted twice.
pub future_replay :
    (crypto_verify : Text → Text → Text → Option Bool) (issuer_key : Text) (ttl_ms : ℕ)
    (socket : Socket) (frame : Text) (t u : ℕ) (c : Memory)
    → IsGenuine (memory_nonce_cache ttl_ms) crypto_verify issuer_key socket frame t
    → IsFresh (memory_nonce_cache ttl_ms) crypto_verify issuer_key frame t c
    → t + ttl_ms < u
    → u ≤ timestamp_ms (frame_fields frame) + tier_tolerance_ms (frame_fields frame).tier
    → let ops = memory_nonce_cache ttl_ms in
      let (c', first) = verify ops crypto_verify issuer_key socket frame t t c in
      (is_accepted first ≡ true)
      × (is_accepted (verify ops crypto_verify issuer_key socket frame u u c').1 ≡ true)
future_replay crypto_verify issuer_key ttl_ms socket frame t u c genuine fresh late soon =
    let ops = memory_nonce_cache ttl_ms in
    let iff = verify_accepts_iff ops crypto_verify issuer_key socket frame in
    let first = (iff t t c).1 (genuine, fresh) in
    (
      first,
      (iff u u _).1 (
        record {
          size = genuine.size;
          version_one = genuine.version_one;
          encrypted = genuine.encrypted;
          bound = genuine.bound;
          signed = genuine.signed;
          recent = soon;
        },
        forgotten crypto_verify issuer_key ttl_ms socket frame t u c first late,
      ),
    )
