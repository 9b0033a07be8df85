-- ===== src/AgentPlugin/Actions.antt =====
-- The plugin's actions, one after the other (plugins/elizaos-plugin-openttt/src/actions).
use open_ttt.Prelude.{
  ℕ, ◌+◌, ◌≤◌, ◌≡◌, refl, ap, ◌∙◌, ◌↔◌, true, false, Option, none, some, List, [], ◌∷◌, Text,
  lookup, arith, Bool-cases, inl, inr,
}
use open_ttt.PotSigner.{PotSignature, verify_pot_signature}
use open_ttt.AgentPlugin.{PotCache, VerifiedTime, pot_cache_get, remove_expired}
use open_ttt.AgentPlugin.Generate.{
  PotToken, PluginEnv, Json, has_big_int, items_have_big_int, texts_json, cache_token,
  json_of_token, make_token, generate_pot,
}
use open_ttt.AgentPlugin.Verify.{
  FindInput, valid, no_token, find_by_hash, find_last, find_token, find_given, fall_back,
  first_given, check_age, check_signed, check_token, verify_pot, query_pot,
}

-- A call of an action, or the interval that removes expired entries.
pub data Step : Type 0 where
  generates : Text → VerifiedTime → Text → ℕ → ℕ → ℕ → Step
  verifies : FindInput → VerifiedTime → Step
  queries : FindInput → Step
  sweeps : ℕ → Step

module _ (env : PluginEnv) where
  abbrev pub after : Step → PotCache → PotCache
  after (generates agent_id vt nonce signed_ms pot_ms last_ms) cache =
      (generate_pot env agent_id vt nonce signed_ms pot_ms last_ms cache).0
  after (verifies input vt) cache = (verify_pot env input vt cache).0
  after (queries input) cache = (query_pot env input cache).0
  after (sweeps now_ms) cache = remove_expired now_ms cache

  -- The cache of a new process after some steps.
  abbrev pub run : List Step → PotCache → PotCache
  run [] cache = cache
  run (s ∷ ss) cache = run ss (after s cache)

  -- `JSON.stringify` throws on a bigint.
  abbrev pub IsStrict : Type 0
  IsStrict = (v : Json) → has_big_int v ≡ true → env.stringify v ≡ none

  no_big_int : (ts : List Text) → items_have_big_int (texts_json ts) ≡ false
  unfolding has_big_int
  no_big_int [] = refl
  no_big_int (t ∷ ts) = no_big_int ts

  -- The signature of a token that is made has a bigint in it.
  has_big_int-make_token :
      (agent_id : Text) (vt : VerifiedTime) (nonce : Text) (signed_ms : ℕ)
      → has_big_int (json_of_token (make_token env agent_id vt nonce signed_ms)) ≡ true
  unfolding json_of_token has_big_int make_token
  has_big_int-make_token agent_id vt nonce signed_ms = rw (no_big_int vt.sources) refl

  generate-fails :
      IsStrict
      → (agent_id : Text) (vt : VerifiedTime) (nonce : Text) (signed_ms pot_ms last_ms : ℕ)
        (cache : PotCache)
      → generate_pot env agent_id vt nonce signed_ms pot_ms last_ms cache ≡ (cache, none)
  unfolding generate_pot
  generate-fails strict agent_id vt nonce signed_ms pot_ms last_ms cache =
      let pot = make_token env agent_id vt nonce signed_ms in
      ap (λ json. cache_token env pot_ms last_ms agent_id pot json cache)
        (strict (json_of_token pot) (has_big_int-make_token agent_id vt nonce signed_ms))

  find_by_hash-nil :
      (now_ms : ℕ) (pot_hash : Option Text) → find_by_hash env now_ms pot_hash [] ≡ ([], none)
  unfolding find_by_hash pot_cache_get lookup
  find_by_hash-nil now_ms none = refl
  find_by_hash-nil now_ms (some []) = refl
  find_by_hash-nil now_ms (some (c ∷ cs)) = refl

  find_given-nil :
      (input : FindInput) (given : Option PotToken) → find_given env input given [] ≡ ([], given)
  unfolding find_last find_by_hash pot_cache_get lookup
  find_given-nil input (some pot) = refl
  find_given-nil input none =
      ap (fall_back env input)
        (find_by_hash-nil input.hash_ms (first_given input.pot_hash input.text_match))

  after-nil : IsStrict → (s : Step) → after s [] ≡ []
  unfolding verify_pot query_pot find_token remove_expired
  after-nil strict (generates agent_id vt nonce signed_ms pot_ms last_ms) =
      ap (λ r. r.0) (generate-fails strict agent_id vt nonce signed_ms pot_ms last_ms [])
  after-nil strict (verifies input vt) = ap (λ r. r.0) (find_given-nil input input.pot)
  after-nil strict (queries input) = ap (λ r. r.0) (find_given-nil input none)
  after-nil strict (sweeps now_ms) = refl

  run-nil : IsStrict → (ss : List Step) → run ss [] ≡ []
  run-nil strict [] = refl
  run-nil strict (s ∷ ss) = ap (run ss) (after-nil strict s) ∙ run-nil strict ss

  -- No token is ever made: whatever actions a process has seen, its cache is empty, the next
  -- generation fails and leaves it so, a verification without a token in its options finds none, and
  -- so does a query; since JSON.stringify throws on the bigint in the token's signature.
  pub never_cached :
      IsStrict
      → (ss : List Step) (agent_id : Text) (vt : VerifiedTime) (nonce : Text)
        (signed_ms pot_ms last_ms : ℕ) (input : FindInput) (later : VerifiedTime)
      → input.pot ≡ none
      → (run ss [] ≡ [])
        × (generate_pot env agent_id vt nonce signed_ms pot_ms last_ms (run ss []) ≡ ([], none))
        × ((verify_pot env input later (run ss [])).1 ≡ no_token)
        × ((query_pot env input (run ss [])).1 ≡ none)
  unfolding verify_pot query_pot find_token check_token
  never_cached strict ss agent_id vt nonce signed_ms pot_ms last_ms input later absent =
      rw (run-nil strict ss) (
        refl,
        generate-fails strict agent_id vt nonce signed_ms pot_ms last_ms [],
        ap (λ r. check_token env r.1 later)
            (find_given-nil input input.pot ∙ ap (λ p. ([], p)) absent),
        ap (λ r. r.1) (find_given-nil input none),
      )

  check_age_iff :
      (pot : PotToken) (vt : VerifiedTime)
      → (check_age env pot vt ≡ valid)
        ↔ ((pot.timestamp ≤ vt.timestamp) × (vt.timestamp ≤ pot.timestamp + 300000))
  check_age_iff pot vt = (λ e. (ground arith, ground arith), λ (a, b). ground arith)

  check_signed_iff :
      (pot : PotToken) (vt : VerifiedTime) (signature : Option PotSignature)
      → (check_signed env pot vt signature ≡ valid) ↔ (
          (s : PotSignature) × (signature ≡ some s)
          × (verify_pot_signature env.crypto pot.pot_hash s none ≡ true)
          × (pot.timestamp ≤ vt.timestamp)
          × (vt.timestamp ≤ pot.timestamp + 300000))
  check_signed_iff pot vt none = (λ e. absurd (cc), λ (s, e, _, _, _). absurd (cc))
  check_signed_iff pot vt (some s) =
      let (there, back) = check_age_iff pot vt in
      elim (Bool-cases (verify_pot_signature env.crypto pot.pot_hash s none)) [
        | inl good ↦ rw good (
          λ e. let (past, young) = there e in (s, refl, good, past, young),
          λ (_, _, _, past, young). back (past, young),
        )
        | inr bad ↦
            rw bad (λ e. absurd (cc), λ (t, e, good, _, _). let same : s ≡ t = cc in absurd (cc))
      ]

  -- A token that is given to the verification is valid exactly if it has a signature, which is one
  -- of its hash by the key that it names, and the verified time is not before its timestamp and at
  -- most five minutes after it.
  pub verify_given_iff :
      (input : FindInput) (pot : PotToken) (vt : VerifiedTime) (cache : PotCache)
      → input.pot ≡ some pot
      → ((verify_pot env input vt cache).1 ≡ valid) ↔ (
          (s : PotSignature) × (pot.signature ≡ some s)
          × (verify_pot_signature env.crypto pot.pot_hash s none ≡ true)
          × (pot.timestamp ≤ vt.timestamp)
          × (vt.timestamp ≤ pot.timestamp + 300000))
  unfolding verify_pot find_token check_token
  verify_given_iff input pot vt cache given = rw given (check_signed_iff pot vt pot.signature)
