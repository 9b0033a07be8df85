-- ===== src/EvmConnector/Events.antt =====
-- The event listeners of the connector (src/evm_connector.ts).
pub mod Laws
use open_ttt.Prelude.{
  ℕ, suc, ◌+◌, Bool, true, false, not, ◌&&◌, Option, none, some, List, [], ◌∷◌, ◌++◌, Text, keep_if,
  ◌==◌, if◌then◌else◌,
}
use open_ttt.EvmConnector.{Event, minted, burned, fee_collected, Listener, Connector}

-- Which callbacks are given.
pub record Callbacks : Type 0 where
  pub on_minted : Bool
  pub on_burned : Bool
  pub on_fee_collected : Bool

-- `contract.off(event, handler)` for each of them; what is not registered is passed over.
unfoldable pub off_all : List Listener → List Listener → List Listener
off_all [] registered = registered
off_all (u ∷ us) registered = off_all us (keep_if (λ l. not (l.handler == u.handler)) registered)

module _ {S : Type 0} where
  unfoldable pub unsubscribe_all : Connector S → Connector S
  unsubscribe_all c = record c {
    registered = off_all c.event_listeners c.registered;
    event_listeners = [];
  }

  -- `contract.on(event, handler)` with a new handler, if there are a contract and a callback.
  unfoldable pub listen : Option Text → Bool → Event → Connector S → Connector S
  listen (some contract) true event c =
      let l : Listener = record { contract = contract; event = event; handler = c.made } in
      record c {
        registered = c.registered ++ l ∷ [];
        event_listeners = c.event_listeners ++ l ∷ [];
        made = suc c.made;
      }
  listen (some contract) false event c = c
  listen none wanted event c = c

  abbrev pub without_old : List Listener → Connector S → Connector S
  without_old [] c = c
  without_old (l ∷ ls) c = unsubscribe_all c

  unfoldable pub subscribe_to_events : Callbacks → Connector S → Connector S
  subscribe_to_events callbacks c =
      listen c.protocol_fee_contract callbacks.on_fee_collected fee_collected (
        listen c.ttt_contract callbacks.on_burned burned
          (listen c.ttt_contract callbacks.on_minted minted (without_old c.event_listeners c)))
