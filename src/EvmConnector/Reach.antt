-- ===== src/EvmConnector/Reach.antt =====
-- The states that a connector can be in (src/evm_connector.ts), and what holds in all of them.
use open_ttt.Prelude.{ℕ, ◌≡◌, refl, ◌∙◌, Bool, List, [], Text}
use open_ttt.EvmConnector.{Answer, SignerOrKey, Wallets, Connector, new_connector}
use open_ttt.EvmConnector.Events.{Callbacks, unsubscribe_all, subscribe_to_events}
use open_ttt.EvmConnector.Events.Laws.{places, all_wanted, unsubscribe_all-empty, subscribed}
use open_ttt.EvmConnector.Dial.{disconnect, connect, reconnect}
use open_ttt.EvmConnector.Calls.{attach_contract, attach_protocol_fee_contract}
use open_ttt.EvmConnector.Sound.{
  IsSound, new_connector-IsSound, disconnect-IsSound, unsubscribe-IsSound, subscribe-IsSound,
  attach-IsSound, connect-IsSound, reconnect-IsSound,
}

module _ {S : Type 0} (wallets : Wallets S) (is_address : Text → Bool) (show : ℕ → Text) where
  -- A call of the connector, with whatever comes of the URLs that it dials.
  pub data Step (c : Connector S) : Connector S → Type 0 where
    connects :
        (dial : ℕ → Text → Answer) (url : Text) (who : SignerOrKey S)
        → Step c (connect wallets dial url who c).0
    reconnects : (dial : ℕ → Text → Answer) → Step c (reconnect wallets dial show c).0
    disconnects : Step c (disconnect c)
    attaches : (address : Text) → Step c (attach_contract is_address address c).0
    attaches_fee : (address : Text) → Step c (attach_protocol_fee_contract is_address address c).0
    subscribes : (callbacks : Callbacks) → Step c (subscribe_to_events callbacks c)
    unsubscribes : Step c (unsubscribe_all c)

  pub data Reach : Connector S → Type 0 where
    start : (urls : List Text) (max_attempts : ℕ) → Reach (new_connector urls max_attempts)
    later : {c d : Connector S} → Reach c → Step c d → Reach d

  Step-IsSound : {c d : Connector S} → Step c d → IsSound c → IsSound d
  Step-IsSound {c} (connects dial url who) h = connect-IsSound wallets dial url who c h
  Step-IsSound {c} (reconnects dial) h = reconnect-IsSound wallets dial show c h
  Step-IsSound {c} disconnects h = disconnect-IsSound c h
  Step-IsSound {c} (attaches address) h = (attach-IsSound is_address address c h).0
  Step-IsSound {c} (attaches_fee address) h = (attach-IsSound is_address address c h).1
  Step-IsSound {c} (subscribes callbacks) h = subscribe-IsSound callbacks c h
  Step-IsSound {c} unsubscribes h = unsubscribe-IsSound c h

  -- In every state that calls lead to, whatever the network answered: a connector that counts as
  -- connected has a provider and a signer, an attached contract has a signer, and the contracts hold
  -- exactly the handlers that the connector will take back.
  pub Reach-IsSound : {c : Connector S} → Reach c → IsSound c
  Reach-IsSound (start urls n) = new_connector-IsSound urls n
  Reach-IsSound (later r st) = Step-IsSound st (Reach-IsSound r)

  -- Subscribing leaves one handler for each callback with a contract, in every state: earlier
  -- handlers are gone, also those of contracts that were replaced since, and after disconnecting
  -- there are none.
  pub subscribe_once :
      {c : Connector S} (callbacks : Callbacks)
      → Reach c
      → (places (subscribe_to_events callbacks c).registered ≡ all_wanted callbacks c)
        × (places (subscribe_to_events callbacks (subscribe_to_events callbacks c)).registered
            ≡ all_wanted callbacks c)
        × ((disconnect c).registered ≡ [])
  unfolding disconnect unsubscribe_all
  subscribe_once {c} callbacks r =
      let sound = Reach-IsSound r in
      let (t, p, k) = subscribed callbacks c sound.tracking in
      let again = subscribed callbacks (subscribe_to_events callbacks c) t in
      (
        p,
        again.1 ∙ rw (k.ttt_contract, k.protocol_fee_contract) refl,
        (unsubscribe_all-empty c sound.tracking).0,
      )
