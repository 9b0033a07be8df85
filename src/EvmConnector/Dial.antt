-- ===== src/EvmConnector/Dial.antt =====
-- Connecting, reconnecting and disconnecting (src/evm_connector.ts).
pub mod Outcome
pub mod Again
use Prim.Native.Nat.{min}
use open_ttt.Prelude.{
  ℕ, zero, suc, ◌%◌, Bool, true, false, not, ◌&&◌, Option, none, some, List, [], ◌∷◌, Text, length,
  get_elem?, keep_if, if◌then◌else◌,
}
use open_ttt.EvmConnector.{
  Result, ok, err, Answer, no_provider, no_wallet, no_network, up, SignerOrKey, Wallets, Connector,
  invalid_rpc_error, invalid_key_error, connection_failed_error, cannot_reconnect_error,
  exhausted_error, is_empty, has_credentials, has_bad_key, attempt, try_urls,
}
use open_ttt.EvmConnector.Events.{unsubscribe_all}

abbrev pub message_of : Answer → Text
message_of (no_provider m) = m
message_of (no_wallet m) = m
message_of (no_network m) = m
message_of up = []

-- `new JsonRpcProvider(url)` did not throw.
abbrev pub has_provider : Answer → Bool
has_provider (no_provider m) = false
has_provider a = true

module _ {S : Type 0} where
  unfoldable pub disconnect : Connector S → Connector S
  disconnect c = record (unsubscribe_all c) {
    provider = none;
    current_signer = none;
    ttt_contract = none;
    protocol_fee_contract = none;
    connected = false;
  }

  abbrev pub closed_with :
      (Connector S × Bool) → Result (Unit {0}) → Connector S × Result (Unit {0})
  closed_with (c, true) failure = (c, ok tt)
  closed_with (c, false) failure = (c, failure)

  -- `[primary, ...fallbacks].filter(Boolean)`.
  unfoldable pub all_urls : Connector S → List Text
  all_urls c = keep_if (λ url. not (is_empty url)) (c.primary_rpc_url ∷ c.fallback_rpc_urls)

module _ {S : Type 0} (wallets : Wallets S) (dial : ℕ → Text → Answer) where
  -- The `try` block of the primary URL, with the check of the key before its wallet is made, and the
  -- fallbacks behind it. An error of the check is thrown at once.
  unfoldable pub connect_with : Text → SignerOrKey S → Connector S → Connector S × Result (Unit {0})
  connect_with url who c =
      let answer = dial 0 url in
      let (c', done) = attempt wallets answer url who c in
      let bad_key = has_provider answer && has_bad_key who in
      if bad_key
      then (record c { provider = some url }, err invalid_key_error)
      else if done
      then (c', ok tt)
      else closed_with (try_urls wallets dial 1 c'.fallback_rpc_urls who c')
          (err (connection_failed_error (message_of answer)))

  unfoldable pub connect : Text → SignerOrKey S → Connector S → Connector S × Result (Unit {0})
  connect url who c =
      if is_empty url
      then (c, err invalid_rpc_error)
      else connect_with url who (record c { primary_rpc_url = url; signer_or_key = some who })

  abbrev pub attempt_at : Option Text → ℕ → SignerOrKey S → Connector S → Connector S × Bool
  attempt_at none i who c = (c, false)
  attempt_at (some url) i who c = attempt wallets (dial i url) url who c

  -- The rounds of `reconnect` that are left, from attempt `i` on.
  unfoldable pub reconnect_rounds :
      ℕ → ℕ → List Text → SignerOrKey S → Connector S → Connector S × Bool
  reconnect_rounds zero i urls who c = (c, false)
  reconnect_rounds (suc n) i urls who c =
      let (c', done) = attempt_at (get_elem? urls (i % length urls)) i who c in
      let rest = reconnect_rounds n (suc i) urls who c' in if done then (c', true) else rest

  abbrev pub reconnect_with :
      Text → Option (SignerOrKey S) → Connector S → Connector S × Result (Unit {0})
  reconnect_with attempts none c = (c, err cannot_reconnect_error)
  reconnect_with attempts (some who) c =
      let urls = all_urls c in
      let (c', done) = reconnect_rounds (min c.max_reconnect_attempts (length urls)) 0 urls who c in
      if done
      then (c', ok tt)
      else (record c' { connected = false }, err (exhausted_error attempts))

  -- `show` writes the number of attempts.
  unfoldable pub reconnect : (ℕ → Text) → Connector S → Connector S × Result (Unit {0})
  reconnect show c =
      if has_credentials c.signer_or_key
      then reconnect_with (show c.max_reconnect_attempts) c.signer_or_key (disconnect c)
      else (c, err cannot_reconnect_error)
