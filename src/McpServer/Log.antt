-- ===== src/McpServer/Log.antt =====
-- The log of the server is a ring buffer (mcp/tools.ts).
use mathlib.Core.List.{append_assoc, append-nil}
use open_ttt.Prelude.{
  ℕ, ◌-◌, ◌≤◌, ◌≡◌, refl, sym, ap, ◌∙◌, Option, none, some, List, [], ◌∷◌, ◌++◌, Text, zero, suc,
  length, last, drop, codes, ltb, arith, length-append, length-last, last-last-append, last_self,
  last_excess, Bool-cases, inl, inr,
}
use open_ttt.TimeSynthesis.{Result, ok, err, ProofOfTime, generate_proof_of_time}
use open_ttt.ReplayCache.{NonceMap}
use open_ttt.McpServer.{PotAnchorEntry, McpServer, McpEnv, started, telemetry_increment}
use open_ttt.McpServer.Generate.{
  PotGenerateArgs, GenerateInput, entry_of, push_log, log_anchor, encode_shards, after_synthesis,
  pot_generate,
}
use open_ttt.McpServer.Answers.{VerifyAnswer, pot_verify, pot_query, pot_stats, pot_health}
use open_ttt.McpServer.Dispatch.{
  Call, generate_call, verify_call, query_call, stats_call, health_call, Response, generated,
  checked, queried, counted, health, failure, respond, handle_call, run, responses,
}

-- The hashes of the entries, and of the proofs that were handed out.
abbrev pub hashes : List PotAnchorEntry → List Text
hashes [] = []
hashes (e ∷ es) = e.pot_hash ∷ hashes es

length-hashes : (es : List PotAnchorEntry) → length (hashes es) ≡ length es
length-hashes [] = refl
length-hashes (e ∷ es) = omega (arith, length-hashes es)

hashes-append : (es fs : List PotAnchorEntry) → hashes (es ++ fs) ≡ hashes es ++ hashes fs
hashes-append [] fs = refl
hashes-append (e ∷ es) fs = ap (λ l. e.pot_hash ∷ l) (hashes-append es fs)

hashes-drop : (n : ℕ) (es : List PotAnchorEntry) → hashes (drop n es) ≡ drop n (hashes es)
hashes-drop zero es = refl
hashes-drop (suc n) [] = refl
hashes-drop (suc n) (e ∷ es) = hashes-drop n es

hashes-last : (n : ℕ) (es : List PotAnchorEntry) → hashes (last n es) ≡ last n (hashes es)
hashes-last n es = rw (length-hashes es) (hashes-drop (length es - n) es)

push_log-eq-last :
    (e : PotAnchorEntry) (log : List PotAnchorEntry)
    → length log ≤ 10000
    → push_log e log ≡ last 10000 (log ++ e ∷ [])
unfolding push_log
push_log-eq-last e log k = elim (Bool-cases (ltb 10000 (length (log ++ e ∷ [])))) [
  | inl big ↦
      rw big
        (sym (last_excess 10000 1 (log ++ e ∷ []) (ground (arith, length-append log (e ∷ [])))))
  | inr small ↦ rw small (sym (last_self 10000 (log ++ e ∷ []) (ground arith)))
]

hashes-push_log :
    (e : PotAnchorEntry) (log : List PotAnchorEntry)
    → length log ≤ 10000
    → hashes (push_log e log) ≡ last 10000 (hashes log ++ e.pot_hash ∷ [])
hashes-push_log e log k =
    ap hashes (push_log-eq-last e log k)
    ∙ hashes-last 10000 (log ++ e ∷ [])
    ∙ ap (last 10000) (hashes-append log (e ∷ []))

module _ {F : Type 0} where
  -- The hash that a response hands out.
  abbrev pub hash_of : Response F → List Text
  hash_of (generated a) = a.pot_hash ∷ []
  hash_of (checked a) = []
  hash_of (queried a) = []
  hash_of (counted a) = []
  hash_of (health a) = []
  hash_of failure = []

  abbrev pub handed_out : List (Response F) → List Text
  handed_out [] = []
  handed_out (r ∷ rs) = hash_of r ++ handed_out rs

  -- The log has one more hash, if one was handed out.
  abbrev IsLogged : McpServer → McpServer × Response F → Type 0
  IsLogged s (s', r) = hashes s'.pot_log ≡ last 10000 (hashes s.pot_log ++ hash_of r)

  kept-IsLogged :
      (s s' : McpServer) (r : Response F)
      → length s.pot_log ≤ 10000
      → s'.pot_log ≡ s.pot_log
      → hash_of r ≡ []
      → IsLogged s (s', r)
  kept-IsLogged s s' r k same nothing =
      rw (same, nothing, append-nil (hashes s.pot_log))
        (sym (last_self 10000 (hashes s.pot_log) (rw (length-hashes s.pot_log) k)))

module _ {F : Type 0} (env : McpEnv F) where
  log_anchor-IsLogged :
      (args : PotGenerateArgs) (input : GenerateInput F) (s : McpServer) (pot : ProofOfTime F)
      (pot_hash : Text) (shards : Option (List Text))
      → length s.pot_log ≤ 10000
      → IsLogged s (respond generated (log_anchor env args input s pot pot_hash shards))
  log_anchor-IsLogged args input s pot pot_hash none k =
      kept-IsLogged {F = F} s s failure k refl refl
  log_anchor-IsLogged args input s pot pot_hash (some shards) k =
      hashes-push_log (entry_of env args input s pot pot_hash) s.pot_log k

  encode_shards-IsLogged :
      (args : PotGenerateArgs) (input : GenerateInput F) (s : McpServer) (pot : ProofOfTime F)
      (pot_hash : Option Text)
      → length s.pot_log ≤ 10000
      → IsLogged s (respond generated (encode_shards env args input s pot pot_hash))
  encode_shards-IsLogged args input s pot none k = kept-IsLogged {F = F} s s failure k refl refl
  encode_shards-IsLogged args input s pot (some pot_hash) k =
      log_anchor-IsLogged args input s pot pot_hash
        (env.process_forward (env.utf8 args.tx_hash) args.chain_id args.pool_address) k

  after_synthesis-IsLogged :
      (args : PotGenerateArgs) (input : GenerateInput F) (s : McpServer)
      (made : NonceMap × Result (ProofOfTime F))
      → length s.pot_log ≤ 10000
      → IsLogged s (respond generated (after_synthesis env args input s made))
  after_synthesis-IsLogged args input s (nonces, err e) k =
      kept-IsLogged {F = F} s (record s { nonces = nonces }) failure k refl refl
  after_synthesis-IsLogged args input s (nonces, ok pot) k =
      encode_shards-IsLogged args input (record s { nonces = nonces }) pot (env.on_chain_hash pot) k

  respond-IsLogged :
      (s s' : McpServer) (a : Option VerifyAnswer)
      → length s.pot_log ≤ 10000
      → s'.pot_log ≡ s.pot_log
      → IsLogged s (respond {F = F} checked (s', a))
  respond-IsLogged s s' none k same = kept-IsLogged {F = F} s s' failure k same refl
  respond-IsLogged s s' (some a) k same = kept-IsLogged {F = F} s s' (checked a) k same refl

  handle_call-IsLogged :
      (c : Call F) (s : McpServer) → length s.pot_log ≤ 10000 → IsLogged s (handle_call env c s)
  unfolding handle_call pot_generate pot_verify pot_query pot_stats pot_health telemetry_increment
  handle_call-IsLogged (generate_call args input) s k =
      after_synthesis-IsLogged args input (telemetry_increment (codes "pot_generate") s)
        (generate_proof_of_time env.floats input.results input.nonce input.issued_ms
          input.verified_ms s.nonces)
        k
  handle_call-IsLogged (verify_call args now_ms) s k =
      respond-IsLogged s (pot_verify env args now_ms s).0 (pot_verify env args now_ms s).1 k refl
  handle_call-IsLogged (query_call args now_ms) s k =
      let after = handle_call env (query_call args now_ms) s in
      kept-IsLogged s after.0 after.1 k refl refl
  handle_call-IsLogged (stats_call period now_ms) s k =
      let after = handle_call env (stats_call period now_ms) s in
      kept-IsLogged s after.0 after.1 k refl refl
  handle_call-IsLogged (health_call synthesized) s k =
      let after = handle_call env (health_call synthesized) s in
      kept-IsLogged s after.0 after.1 k refl refl

  handle_call-IsBounded :
      (c : Call F) (s : McpServer)
      → length s.pot_log ≤ 10000
      → length (handle_call env c s).0.pot_log ≤ 10000
  handle_call-IsBounded c s k =
      let logged = handle_call-IsLogged c s k in
      let seen = hashes s.pot_log ++ hash_of (handle_call env c s).1 in
      rw (sym (length-hashes (handle_call env c s).0.pot_log) ∙ ap length logged)
        (omega (arith, length-last 10000 seen))

  run-logged :
      (cs : List (Call F)) (s : McpServer)
      → length s.pot_log ≤ 10000
      → hashes (run env cs s).pot_log
        ≡ last 10000 (hashes s.pot_log ++ handed_out (responses env cs s))
  run-logged [] s k =
      rw (append-nil (hashes s.pot_log))
        (sym (last_self 10000 (hashes s.pot_log) (rw (length-hashes s.pot_log) k)))
  run-logged (c ∷ cs) s k =
      let (s', r) = handle_call env c s in
      let rest = handed_out (responses env cs s') in
      run-logged cs s' (handle_call-IsBounded c s k)
      ∙ ap (λ h. last 10000 (h ++ rest)) (handle_call-IsLogged c s k)
      ∙ last-last-append 10000 (hashes s.pot_log ++ hash_of r) rest
      ∙ ap (last 10000) (append_assoc (hashes s.pot_log) (hash_of r) rest)

  -- After any calls of a new server, its log has the hashes of the last 10000 proofs that it handed
  -- out, in their order, and those of no other proof.
  pub run-started :
      (cs : List (Call F))
      → hashes (run env cs started).pot_log ≡ last 10000 (handed_out (responses env cs started))
  run-started cs = run-logged cs started (omega arith)

  pub length-run : (cs : List (Call F)) → length (run env cs started).pot_log ≤ 10000
  length-run cs =
      rw (sym (length-hashes (run env cs started).pot_log) ∙ ap length (run-started cs))
        (omega (arith, length-last 10000 (handed_out (responses env cs started))))
