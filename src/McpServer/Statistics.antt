-- ===== src/McpServer/Statistics.antt =====
-- What the tool pot_stats reports (mcp/tools.ts).
use open_ttt.Prelude.{
  ℕ, suc, ◌-◌, ◌≤◌, ◌≡◌, refl, ap, Bool, Option, none, some, List, [], ◌∷◌, ◌++◌, Text, codes, All,
  length, keep_if, leb, ltb, arith, length-keep_if, Bool-cases, inl, inr, All-drop, All-append,
}
use open_ttt.ReplayCache.{NonceMap}
use open_ttt.AdaptiveSwitch.{full}
use open_ttt.TimeSynthesis.{Result, ok, err, ProofOfTime, generate_proof_of_time}
use open_ttt.McpServer.{PotAnchorEntry, McpServer, McpEnv, started, telemetry_increment}
use open_ttt.McpServer.Generate.{
  PotGenerateArgs, GenerateInput, entry_of, push_log, log_anchor, encode_shards, after_synthesis,
  pot_generate,
}
use open_ttt.McpServer.Answers.{
  Period, is_turbo, is_full, period_ms, pot_verify, pot_query, pot_stats, pot_health,
}
use open_ttt.McpServer.Dispatch.{
  Call, Response, generate_call, verify_call, query_call, stats_call, health_call, generated,
  checked, respond, handle_call, run,
}
use open_ttt.McpServer.Log.{length-run}

abbrev IsInFull : PotAnchorEntry → Type 0
IsInFull e = e.mode ≡ full

-- The switch and every entry of the log are in full mode.
abbrev IsFull : McpServer → Type 0
IsFull s = (s.adaptive_switch.current_mode ≡ full) × All IsInFull s.pot_log

push_log-full :
    (e : PotAnchorEntry) (log : List PotAnchorEntry)
    → IsInFull e
    → All IsInFull log
    → All IsInFull (push_log e log)
unfolding push_log
push_log-full e log h hs =
    let longer : All IsInFull (log ++ e ∷ []) = All-append IsInFull log (e ∷ []) hs (h, tt) in
    elim (Bool-cases (ltb 10000 (length (log ++ e ∷ [])))) [
      | inl big ↦ rw big (All-drop IsInFull 1 (log ++ e ∷ []) longer)
      | inr small ↦ rw small longer
    ]

respond-keeps {ℓ} :
    {X : Type ℓ} {F : Type 0} (f : X → Response F) (made : McpServer × Option X)
    → (respond f made).0 ≡ made.0
respond-keeps f (s, none) = refl
respond-keeps f (s, some x) = refl

module _ {F : Type 0} (env : McpEnv F) where
  log_anchor-IsFull :
      (args : PotGenerateArgs) (input : GenerateInput F) (s : McpServer) (pot : ProofOfTime F)
      (pot_hash : Text) (shards : Option (List Text))
      → IsFull s
      → IsFull (log_anchor env args input s pot pot_hash shards).0
  log_anchor-IsFull args input s pot pot_hash none v = v
  log_anchor-IsFull args input s pot pot_hash (some shards) (mode, entries) =
      (mode, push_log-full (entry_of env args input s pot pot_hash) s.pot_log mode entries)

  encode_shards-IsFull :
      (args : PotGenerateArgs) (input : GenerateInput F) (s : McpServer) (pot : ProofOfTime F)
      (pot_hash : Option Text)
      → IsFull s
      → IsFull (encode_shards env args input s pot pot_hash).0
  encode_shards-IsFull args input s pot none v = v
  encode_shards-IsFull args input s pot (some pot_hash) v =
      log_anchor-IsFull args input s pot pot_hash
        (env.process_forward (env.utf8 args.tx_hash) args.chain_id args.pool_address) v

  after_synthesis-IsFull :
      (args : PotGenerateArgs) (input : GenerateInput F) (s : McpServer)
      (made : NonceMap × Result (ProofOfTime F))
      → IsFull s
      → IsFull (after_synthesis env args input s made).0
  after_synthesis-IsFull args input s (nonces, err e) v = v
  after_synthesis-IsFull args input s (nonces, ok pot) v =
      encode_shards-IsFull args input (record s { nonces = nonces }) pot (env.on_chain_hash pot) v

  handle_call-IsFull : (c : Call F) (s : McpServer) → IsFull s → IsFull (handle_call env c s).0
  unfolding handle_call pot_generate pot_verify pot_query pot_stats pot_health telemetry_increment
  handle_call-IsFull (generate_call args input) s v =
      let counted = telemetry_increment (codes "pot_generate") s in
      let made = after_synthesis env args input counted (
        generate_proof_of_time env.floats input.results input.nonce input.issued_ms
          input.verified_ms s.nonces) in
      rw (respond-keeps {F = F} generated made) (
        after_synthesis-IsFull args input counted
          (generate_proof_of_time env.floats input.results input.nonce input.issued_ms
            input.verified_ms s.nonces)
          v)
  handle_call-IsFull (verify_call args now_ms) s v =
      rw (respond-keeps {F = F} checked (pot_verify env args now_ms s)) v
  handle_call-IsFull (query_call args now_ms) s v = v
  handle_call-IsFull (stats_call period now_ms) s v = v
  handle_call-IsFull (health_call synthesized) s v = v

  run-IsFull : (cs : List (Call F)) (s : McpServer) → IsFull s → IsFull (run env cs s)
  run-IsFull [] s v = v
  run-IsFull (c ∷ cs) s v = run-IsFull cs (handle_call env c s).0 (handle_call-IsFull c s v)

  kept_counts :
      (p : PotAnchorEntry → Bool) (es : List PotAnchorEntry)
      → All IsInFull es
      → (length (keep_if (λ e. is_turbo e.mode) (keep_if p es)) ≡ 0)
        × (length (keep_if (λ e. is_full e.mode) (keep_if p es)) ≡ length (keep_if p es))
  kept_counts p [] h = (refl, refl)
  kept_counts p (e ∷ es) (m, h) =
      let (none_turbo, all_full) = kept_counts p es h in
      elim (Bool-cases (p e)) [
        | inl kept ↦ rw kept (rw m (none_turbo, ap suc all_full))
        | inr left ↦ rw left (none_turbo, all_full)
      ]

  -- The server never feeds its switch: after any calls of a new server the statistics have no entry in
  -- turbo mode, all entries of the period in full mode, at most 10000 of them, and full as the
  -- current mode.
  pub pot_stats-run :
      (cs : List (Call F)) (period : Period) (now_ms : ℕ)
      → ((pot_stats env period now_ms (run env cs started)).1.turbo_count ≡ 0)
        × ((pot_stats env period now_ms (run env cs started)).1.full_count
            ≡ (pot_stats env period now_ms (run env cs started)).1.total_swaps)
        × ((pot_stats env period now_ms (run env cs started)).1.total_swaps ≤ 10000)
        × ((pot_stats env period now_ms (run env cs started)).1.current_mode ≡ full)
  unfolding pot_stats open_ttt.AdaptiveSwitch.new
  pot_stats-run cs period now_ms =
      let log = (run env cs started).pot_log in
      let in_period : PotAnchorEntry → Bool =
        λ e. leb (now_ms - period_ms env period) e.created_at in
      let (mode, entries) = run-IsFull cs started (refl, tt) in
      let (none_turbo, all_full) = kept_counts in_period log entries in
      (none_turbo, all_full, omega (arith, length-keep_if in_period log, length-run env cs), mode)
