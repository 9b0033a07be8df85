-- ===== src/AgentPlugin/Verify.antt =====
-- Finding a token, verifying and showing it (verifyPot.ts and queryPot.ts of
-- plugins/elizaos-plugin-openttt/src/actions).
use open_ttt.Prelude.{ℕ, ◌+◌, not, Option, none, some, [], ◌∷◌, Text, ltb, if◌then◌else◌}
use open_ttt.PotSigner.{PotSignature, verify_pot_signature}
use open_ttt.AgentPlugin.{PotCache, VerifiedTime, pot_cache_get}
use open_ttt.AgentPlugin.Generate.{PotToken, PluginEnv, pot_key, last_key}

pub record FindInput : Type 0 where
  -- `options.pot`, `options.pot_hash` and the hash in the message.
  pub pot : Option PotToken
  pub pot_hash : Option Text
  pub text_match : Option Text
  pub agent_id : Text
  -- The clock at each look into the cache.
  pub hash_ms : ℕ
  pub last_ms : ℕ
  pub pot_ms : ℕ

pub data VerifyResult : Type 0 where
  valid no_token no_signature bad_signature expired in_future : VerifyResult

abbrev pub pot_max_age_ms : ℕ
pot_max_age_ms = 300000

abbrev pub first_given : Option Text → Option Text → Option Text
first_given none b = b
first_given (some a) b = some a

module _ (env : PluginEnv) where
  abbrev pub parsed : Option Text → Option PotToken
  parsed none = none
  parsed (some []) = none
  parsed (some (c ∷ cs)) = env.parse (c ∷ cs)

  abbrev pub parsed_after : PotCache × Option Text → PotCache × Option PotToken
  parsed_after (cache, text) = (cache, parsed text)

  unfoldable pub find_by_hash : ℕ → Option Text → PotCache → PotCache × Option PotToken
  find_by_hash now_ms none cache = (cache, none)
  find_by_hash now_ms (some []) cache = (cache, none)
  find_by_hash now_ms (some (c ∷ cs)) cache =
      parsed_after (pot_cache_get now_ms (pot_key (c ∷ cs)) cache)

  abbrev pub follow_pointer : ℕ → PotCache × Option Text → PotCache × Option PotToken
  follow_pointer now_ms (cache, last_hash) = find_by_hash now_ms last_hash cache

  -- The token that the agent made last.
  unfoldable pub find_last : ℕ → ℕ → Text → PotCache → PotCache × Option PotToken
  find_last last_ms pot_ms agent_id cache =
      follow_pointer pot_ms (pot_cache_get last_ms (last_key agent_id) cache)

  abbrev pub fall_back : FindInput → PotCache × Option PotToken → PotCache × Option PotToken
  fall_back input (cache, some pot) = (cache, some pot)
  fall_back input (cache, none) = find_last input.last_ms input.pot_ms input.agent_id cache

  -- The lookup of `verifyPot` and, without a token in the options, of `queryPot`.
  abbrev pub find_given : FindInput → Option PotToken → PotCache → PotCache × Option PotToken
  find_given input (some pot) cache = (cache, some pot)
  find_given input none cache =
      fall_back input
        (find_by_hash input.hash_ms (first_given input.pot_hash input.text_match) cache)

  unfoldable pub find_token : FindInput → PotCache → PotCache × Option PotToken
  find_token input cache = find_given input input.pot cache

  abbrev pub check_age : PotToken → VerifiedTime → VerifyResult
  check_age pot vt =
      if ltb (pot.timestamp + pot_max_age_ms) vt.timestamp
      then expired
      else if ltb vt.timestamp pot.timestamp
      then in_future
      else valid

  abbrev pub check_signed : PotToken → VerifiedTime → Option PotSignature → VerifyResult
  check_signed pot vt none = no_signature
  check_signed pot vt (some signature) =
      if not (verify_pot_signature env.crypto pot.pot_hash signature none)
      then bad_signature
      else check_age pot vt

  unfoldable pub check_token : Option PotToken → VerifiedTime → VerifyResult
  check_token none vt = no_token
  check_token (some pot) vt = check_signed pot vt pot.signature

  abbrev pub checked_after : VerifiedTime → PotCache × Option PotToken → PotCache × VerifyResult
  checked_after vt (cache, pot) = (cache, check_token pot vt)

  -- The handler of `verifyPot`, with the verified time that it asks for.
  unfoldable pub verify_pot : FindInput → VerifiedTime → PotCache → PotCache × VerifyResult
  verify_pot input vt cache = checked_after vt (find_token input cache)

  -- The handler of `queryPot`.
  unfoldable pub query_pot : FindInput → PotCache → PotCache × Option PotToken
  query_pot input cache = find_given input none cache
