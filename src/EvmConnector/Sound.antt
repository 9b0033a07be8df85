-- ===== src/EvmConnector/Sound.antt =====
-- What every call of the connector keeps (src/evm_connector.ts).
use Prim.Native.Nat.{min}
use open_ttt.Prelude.{
  ℕ, zero, suc, ◌%◌, ◌≡◌, refl, Bool, ◌&&◌, true, false, Option, none, some, List, [], ◌∷◌, Text,
  length, get_elem?, is_some, if◌then◌else◌, Bool-cases, inl, inr, arith,
}
use open_ttt.Errors.{TttError}
use open_ttt.EvmConnector.{
  Result, ok, err, Answer, no_provider, no_wallet, no_network, up, SignerOrKey, Wallets, Connector,
  is_empty, has_credentials, has_bad_key, new_connector, attempt, try_urls,
}
use open_ttt.EvmConnector.Events.{Callbacks, unsubscribe_all, subscribe_to_events}
use open_ttt.EvmConnector.Events.Laws.{IsTracking, unsubscribe_all-empty, subscribed}
use open_ttt.EvmConnector.Dial.{
  has_provider, disconnect, closed_with, all_urls, connect_with, connect, attempt_at,
  reconnect_rounds, reconnect_with, reconnect,
}
use open_ttt.EvmConnector.Calls.{
  check_attach, attached, attach_contract, attach_protocol_fee_contract,
}

module _ {S : Type 0} where
  pub record IsSound (c : Connector S) : Type 0 where
    pub tracking : IsTracking c
    pub live : c.connected ≡ true → (is_some c.provider ≡ true) × (is_some c.current_signer ≡ true)
    pub ttt_signer : is_some c.ttt_contract ≡ true → is_some c.current_signer ≡ true
    pub fee_signer : is_some c.protocol_fee_contract ≡ true → is_some c.current_signer ≡ true

  -- What holds of both branches.
  either {κ} :
      {B : Type κ} (b : Bool) (x y : Connector S × B)
      → IsSound x.0
      → IsSound y.0
      → IsSound (if b then x else y).0
  either true x y h k = h
  either false x y h k = k

  pub new_connector-IsSound : (urls : List Text) (n : ℕ) → IsSound (new_connector {S = S} urls n)
  unfolding new_connector
  new_connector-IsSound urls n = ground arith

  pub disconnect-IsSound : (c : Connector S) → IsSound c → IsSound (disconnect c)
  unfolding disconnect unsubscribe_all
  disconnect-IsSound c h = record {
    tracking = (unsubscribe_all-empty c h.tracking).0;
    live = λ e. cc;
    ttt_signer = λ e. cc;
    fee_signer = λ e. cc;
  }

  pub unsubscribe-IsSound : (c : Connector S) → IsSound c → IsSound (unsubscribe_all c)
  unfolding unsubscribe_all
  unsubscribe-IsSound c h = record {
    tracking = (unsubscribe_all-empty c h.tracking).0;
    live = h.live;
    ttt_signer = h.ttt_signer;
    fee_signer = h.fee_signer;
  }

  pub subscribe-IsSound :
      (callbacks : Callbacks) (c : Connector S)
      → IsSound c
      → IsSound (subscribe_to_events callbacks c)
  subscribe-IsSound callbacks c h =
      let (t, _, k) = subscribed callbacks c h.tracking in
      record {
        tracking = t;
        live = λ e. rw (k.provider, k.current_signer) (h.live (rw k.connected at e));
        ttt_signer = λ e. rw k.current_signer (h.ttt_signer (rw k.ttt_contract at e));
        fee_signer = λ e. rw k.current_signer (h.fee_signer (rw k.protocol_fee_contract at e));
      }

  attached-IsSound :
      (c d : Connector S) (checked : Result (Unit {0}))
      → IsSound c
      → ((u : Unit {0}) → checked ≡ ok u → IsSound d)
      → IsSound (attached c d checked).0
  attached-IsSound c d (err e) h k = h
  attached-IsSound c d (ok u) h k = k u refl

  check_attach-ok :
      (is_address : Text → Bool) (address : Text) (c : Connector S) (u : Unit {0})
      → check_attach is_address address c ≡ ok u
      → is_some c.current_signer ≡ true
  unfolding check_attach
  check_attach-ok is_address address c u e = elim (Bool-cases (is_some c.current_signer)) [
    | inl some_signer ↦ some_signer
    | inr no_signer ↦ absurd (refused (rw no_signer at e))
  ]
    where
      refused : {x : TttError} → ◌≡◌ {A = Result (Unit {0})} (err x) (ok u) → ⊥
      refused h = cc

  pub attach-IsSound :
      (is_address : Text → Bool) (address : Text) (c : Connector S)
      → IsSound c
      → IsSound (attach_contract is_address address c).0
        × IsSound (attach_protocol_fee_contract is_address address c).0
  unfolding attach_contract attach_protocol_fee_contract
  attach-IsSound is_address address c h = (
    attached-IsSound c (record c { ttt_contract = some address })
        (check_attach is_address address c) h
        λ u e. ground (arith, check_attach-ok is_address address c u e),
    attached-IsSound c (record c { protocol_fee_contract = some address })
        (check_attach is_address address c) h
        λ u e. ground (arith, check_attach-ok is_address address c u e),
  )

module _ {S : Type 0} (wallets : Wallets S) (dial : ℕ → Text → Answer) where
  attempt-IsSound :
      (answer : Answer) (url : Text) (who : SignerOrKey S) (c : Connector S)
      → IsSound c
      → IsSound (attempt wallets answer url who c).0
  unfolding attempt
  attempt-IsSound (no_provider m) url who c h = h
  attempt-IsSound (no_wallet m) url who c h = ground arith
  attempt-IsSound (no_network m) url who c h = ground arith
  attempt-IsSound up url who c h = ground arith

  try_urls-IsSound :
      (i : ℕ) (urls : List Text) (who : SignerOrKey S) (c : Connector S)
      → IsSound c
      → IsSound (try_urls wallets dial i urls who c).0
  unfolding try_urls
  try_urls-IsSound i [] who c h = h
  try_urls-IsSound i (url ∷ urls) who c h =
      let (c', done) = attempt wallets (dial i url) url who c in
      let after = attempt-IsSound (dial i url) url who c h in
      either done (c', true) (try_urls wallets dial (suc i) urls who c') after
        (try_urls-IsSound (suc i) urls who c' after)

  closed_with-IsSound :
      (out : Connector S × Bool) (failure : Result (Unit {0}))
      → IsSound out.0
      → IsSound (closed_with out failure).0
  closed_with-IsSound (c, true) failure h = h
  closed_with-IsSound (c, false) failure h = h

  connect_with-IsSound :
      (url : Text) (who : SignerOrKey S) (c : Connector S)
      → IsSound c
      → IsSound (connect_with wallets dial url who c).0
  unfolding connect_with
  connect_with-IsSound url who c h =
      let (after, done) = attempt wallets (dial 0 url) url who c in
      let after_sound = attempt-IsSound (dial 0 url) url who c h in
      either (has_provider (dial 0 url) && has_bad_key who) _ _ (ground arith) (
        either done _ _ after_sound (
          closed_with-IsSound (try_urls wallets dial 1 after.fallback_rpc_urls who after) _
            (try_urls-IsSound 1 after.fallback_rpc_urls who after after_sound)))

  pub connect-IsSound :
      (url : Text) (who : SignerOrKey S) (c : Connector S)
      → IsSound c
      → IsSound (connect wallets dial url who c).0
  unfolding connect
  connect-IsSound url who c h = either (is_empty url) _ _ h (
      connect_with-IsSound url who (record c { primary_rpc_url = url; signer_or_key = some who })
        (ground arith))

  attempt_at-IsSound :
      (o : Option Text) (i : ℕ) (who : SignerOrKey S) (c : Connector S)
      → IsSound c
      → IsSound (attempt_at wallets dial o i who c).0
  attempt_at-IsSound none i who c h = h
  attempt_at-IsSound (some url) i who c h = attempt-IsSound (dial i url) url who c h

  rounds-IsSound :
      (n i : ℕ) (urls : List Text) (who : SignerOrKey S) (c : Connector S)
      → IsSound c
      → IsSound (reconnect_rounds wallets dial n i urls who c).0
  unfolding reconnect_rounds
  rounds-IsSound zero i urls who c h = h
  rounds-IsSound (suc n) i urls who c h =
      let o = get_elem? urls (i % length urls) in
      let (c', done) = attempt_at wallets dial o i who c in
      let after = attempt_at-IsSound o i who c h in
      either done (c', true) (reconnect_rounds wallets dial n (suc i) urls who c') after
        (rounds-IsSound n (suc i) urls who c' after)

  reconnect_with-IsSound :
      (attempts : Text) (o : Option (SignerOrKey S)) (c : Connector S)
      → IsSound c
      → IsSound (reconnect_with wallets dial attempts o c).0
  reconnect_with-IsSound attempts none c h = h
  reconnect_with-IsSound attempts (some who) c h =
      let urls = all_urls c in
      let n = min c.max_reconnect_attempts (length urls) in
      let (c', done) = reconnect_rounds wallets dial n 0 urls who c in
      let after = rounds-IsSound n 0 urls who c h in either done _ _ after (ground arith)

  pub reconnect-IsSound :
      (show : ℕ → Text) (c : Connector S) → IsSound c → IsSound (reconnect wallets dial show c).0
  unfolding reconnect
  reconnect-IsSound show c h =
      either (has_credentials c.signer_or_key) _ _
        (reconnect_with-IsSound (show c.max_reconnect_attempts) c.signer_or_key (disconnect c)
          (disconnect-IsSound c h))
        h
