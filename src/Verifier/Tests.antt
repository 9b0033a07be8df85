-- ===== src/Verifier/Tests.antt =====
-- Runs of the verifier (src/pot_verifier.ts) with a signature check and an exporter for tests.
use open_ttt.Prelude.{
  ℕ, ◌+◌, ◌≤◌, leb→le, of_be, lookup, ◌≡◌, ◌↔◌, refl, true, false, Bool, Option, some, ◌++◌, [],
  ◌∷◌, Text, take, text_eq, be_bytes, replicate, arith, codes,
}
use open_ttt.PotFrame.Validate.{frame_fields}
use open_ttt.Verifier.Binding.{Socket, verify_binding_key}
use open_ttt.Verifier.NonceCache.{IsRemembering, Memory, memory_nonce_cache, memory-IsRemembering}
use open_ttt.Verifier.Accept.{is_accepted, IsGenuine, IsFresh, verify_accepts_iff}
use open_ttt.Verifier.Replay.{Call, call, run, replay_refused, future_replay}
use open_ttt.PotFrame.{decode_pot_frame, pot_record_without_sig}
use open_ttt.Verifier.NonceCache.{has}
use open_ttt.Verifier.{
  verify, timestamp_ms, check_version, check_binding, after_binding, check_signature,
  verify_ed25519, check_recency, tier_tolerance_ms, check_nonce,
}

abbrev test_verify : Text → Text → Text → Option Bool
test_verify key bytes signature = some (text_eq key (take 1 signature))

abbrev test_issuer : Text
test_issuer = 3 ∷ []

abbrev test_exporter : ℕ → Text → Text → Text
test_exporter n label context = replicate n 7

abbrev test_key : Text
test_key = replicate 32 7

abbrev test_socket : Socket
test_socket = record {
  encrypted = true;
  export_keying_material = test_exporter;
  session = some (codes "s");
}

-- A frame of tier 2 with the given time in nanoseconds.
abbrev stamped_frame : ℕ → Text
stamped_frame t =
    replicate 32 7
    ++ ((18 ∷ 4 ∷ 0 ∷ be_bytes 8 t)
        ++ ((0 ∷ 15 ∷ 66 ∷ 64 ∷ []) ++ (replicate 32 9 ++ (replicate 32 5 ++ replicate 64 3))))

abbrev present_frame : Text
present_frame = stamped_frame 4294967296

abbrev future_frame : Text
future_frame = stamped_frame 200000000000

abbrev no_nonces : Memory
no_nonces = []

abbrev first_call : Call
first_call = record { socket = test_socket; frame = present_frame; at = 5000 }

abbrev second_call : Call
second_call = record { socket = test_socket; frame = present_frame; at = 6000 }

accepted_first :
    is_accepted (call (memory_nonce_cache 120000) test_verify test_issuer first_call no_nonces).1
    ≡ true
unfolding verify be_bytes decode_pot_frame check_version of_be check_binding pot_record_without_sig
    after_binding verify_binding_key check_signature verify_ed25519 check_recency tier_tolerance_ms
    check_nonce has lookup
accepted_first = refl

memory-IsRemembering_example : IsRemembering (memory_nonce_cache 120000) 120000
memory-IsRemembering_example = memory-IsRemembering 120000

verify_accepts_iff_example :
    (is_accepted
        (verify
          (memory_nonce_cache 120000)
          test_verify
          test_issuer
          test_socket
          present_frame
          5000
          5000
          no_nonces).1
      ≡ true)
    ↔ (IsGenuine (memory_nonce_cache 120000) test_verify test_issuer test_socket present_frame 5000
        × IsFresh (memory_nonce_cache 120000) test_verify test_issuer present_frame 5000 no_nonces)
verify_accepts_iff_example =
    verify_accepts_iff (memory_nonce_cache 120000) test_verify test_issuer test_socket present_frame
      5000 5000 no_nonces

future_stamp : timestamp_ms (frame_fields future_frame) ≡ 200000
unfolding be_bytes of_be
future_stamp = refl

stamped_before : timestamp_ms (frame_fields present_frame) ≤ 5000
unfolding be_bytes of_be
stamped_before = leb→le (timestamp_ms (frame_fields present_frame)) 5000 refl

replay_refused_example :
    is_accepted
      (call (memory_nonce_cache 120000) test_verify test_issuer second_call (
        run
          (memory_nonce_cache 120000)
          test_verify
          test_issuer
          []
          (call (memory_nonce_cache 120000) test_verify test_issuer first_call no_nonces).0)).1
    ≡ false
replay_refused_example =
    replay_refused (memory_nonce_cache 120000) test_verify test_issuer (memory-IsRemembering 120000)
      first_call second_call [] no_nonces (omega arith) accepted_first tt (omega arith) refl
      stamped_before

future_recent :
    (u : ℕ)
    → u ≤ 200000
    → u
      ≤ timestamp_ms (frame_fields future_frame)
        + tier_tolerance_ms (frame_fields future_frame).tier
future_recent u h =
    let stamp : timestamp_ms (frame_fields future_frame) ≡ 200000 = future_stamp in omega arith

future-IsGenuine :
    IsGenuine (memory_nonce_cache 120000) test_verify test_issuer test_socket future_frame 5000
unfolding be_bytes of_be
future-IsGenuine = record {
  size = refl;
  version_one = refl;
  encrypted = refl;
  bound = refl;
  signed = refl;
  recent = future_recent 5000 (omega arith);
}

future_replay_example :
    let ops = memory_nonce_cache 120000 in
    let (c', first) =
      verify ops test_verify test_issuer test_socket future_frame 5000 5000 no_nonces in
    (is_accepted first ≡ true)
    × (is_accepted (verify ops test_verify test_issuer test_socket future_frame 126000 126000 c').1
        ≡ true)
unfolding has lookup
future_replay_example =
    future_replay test_verify test_issuer 120000 test_socket future_frame 5000 126000 no_nonces
      future-IsGenuine refl (omega arith) (future_recent 126000 (omega arith))
