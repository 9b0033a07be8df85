-- ===== src/EvmConnector/Tests.antt =====
-- Runs of the connector (src/evm_connector.ts).
use open_ttt.Prelude.{
  ℕ, ◌≡◌, ◌↔◌, refl, Bool, true, none, some, [], ◌∷◌, Text, codes, is_some, ◌==◌, if◌then◌else◌,
}
use open_ttt.Errors.{network_tx_dropped, contract_mint_failed}
use open_ttt.EvmConnector.{
  ok, err, Answer, no_network, up, SignerOrKey, signer, Wallets, Connector, new_connector,
  is_connected, attempt, try_urls, connection_failed_error, exhausted_error,
}
use open_ttt.EvmConnector.Events.{Callbacks, subscribe_to_events}
use open_ttt.EvmConnector.Events.Laws.{places, all_wanted}
use open_ttt.EvmConnector.Dial.{connect, connect_with, reconnect, disconnect, all_urls}
use open_ttt.EvmConnector.Dial.Outcome.{Closes, connect_lem}
use open_ttt.EvmConnector.Dial.Again.{Reconnects, reconnect_lem}
use open_ttt.EvmConnector.Calls.{
  Chain, settles, gives, mint_ttt, submit_ttt_record, burn_ttt, attach_contract,
}
use open_ttt.EvmConnector.Calls.Errors.{IsSent, mint_iff, dropped_lem}
use open_ttt.EvmConnector.Faults.{
  submit_dropped, mint_dropped, burn_dropped, mint_failed, burn_failed,
}
use open_ttt.EvmConnector.Sound.{IsSound}
use open_ttt.EvmConnector.Reach.{
  Reach, start, later, connects, attaches, Reach-IsSound, subscribe_once,
}

-- Signers are the URLs that they are on.
abbrev test_wallets : Wallets Text
test_wallets = record { wallet = λ k url. url; attach = λ s url. url }

abbrev primary : Text
primary = codes "http://a"

abbrev fallback : Text
fallback = codes "http://b"

-- The first URL that is dialled does not answer, the second does.
abbrev second_up : ℕ → Text → Answer
second_up n url = if n == 0 then no_network (codes "down") else up

abbrev all_down : ℕ → Text → Answer
all_down n url = no_network (codes "down")

abbrev fresh : Connector Text
fresh = new_connector (fallback ∷ []) 3

abbrev who : SignerOrKey Text
who = signer (codes "s")

abbrev connected_to_b : Connector Text
connected_to_b = (connect test_wallets second_up primary who fresh).0

abbrev any_address : Text → Bool
any_address a = true

abbrev show : ℕ → Text
show n = n ∷ []

connect_lem_example :
    Closes test_wallets
      (err (connection_failed_error (codes "down")))
      (some fallback)
      who
      fresh
      (connect test_wallets second_up primary who fresh)
unfolding new_connector
connect_lem_example = connect_lem test_wallets second_up primary who fresh refl refl

-- After a failed connection the connector is said to be connected, if it was.
still_connected : is_connected (connect test_wallets all_down primary who connected_to_b).0 ≡ true
unfolding is_connected connect connect_with try_urls attempt new_connector
still_connected = refl

reconnect_lem_example :
    Reconnects test_wallets second_up
      (exhausted_error (show 3))
      (some fallback)
      who
      (reconnect test_wallets second_up show connected_to_b)
unfolding connect connect_with try_urls attempt new_connector all_urls
reconnect_lem_example = reconnect_lem test_wallets second_up show who connected_to_b refl refl

abbrev test_reach : Reach test_wallets any_address show connected_to_b
test_reach = later (start (fallback ∷ []) 3) (connects second_up primary who)

Reach-IsSound_example : IsSound connected_to_b
Reach-IsSound_example = Reach-IsSound test_wallets any_address show test_reach

abbrev with_contract : Connector Text
with_contract = (attach_contract any_address (codes "0xc") connected_to_b).0

abbrev both : Callbacks
both = record { on_minted = true; on_burned = true; on_fee_collected = true }

subscribe_once_example :
    (places (subscribe_to_events both with_contract).registered ≡ all_wanted both with_contract)
    × (places (subscribe_to_events both (subscribe_to_events both with_contract)).registered
        ≡ all_wanted both with_contract)
    × ((disconnect with_contract).registered ≡ [])
subscribe_once_example =
    subscribe_once test_wallets any_address show both (later test_reach (attaches (codes "0xc")))

abbrev attached_connector : Connector Text
attached_connector = record (new_connector [] 3) { ttt_contract = some (codes "0xc") }

abbrev good_chain : Chain ℕ
good_chain = record {
  estimate = settles (gives 1000);
  send = λ gas. gives tt;
  wait = gives (some 7);
}

mint_iff_example :
    ((mint_ttt any_address (codes "0xd") good_chain attached_connector ≡ ok 7)
      ↔ ((is_some attached_connector.ttt_contract ≡ true) × (true ≡ true) × IsSent good_chain 7))
    × ((submit_ttt_record good_chain attached_connector ≡ ok 7)
        ↔ ((is_some attached_connector.ttt_contract ≡ true) × IsSent good_chain 7))
mint_iff_example = mint_iff any_address good_chain attached_connector (codes "0xd") 7

sent : IsSent good_chain 7
sent = (1000, tt, refl, refl, refl)

abbrev dropping_chain : Chain ℕ
dropping_chain = record good_chain { wait = gives none }

dropped_lem_example :
    (submit_ttt_record dropping_chain attached_connector ≡ err submit_dropped)
    × (mint_ttt any_address (codes "0xd") dropping_chain attached_connector
        ≡ err (mint_failed mint_dropped.message))
    × (burn_ttt dropping_chain attached_connector
        ≡ err (burn_failed (codes "Check TTT balance.") burn_dropped.message))
    × (submit_dropped.code ≡ network_tx_dropped)
    × ((mint_failed mint_dropped.message).code ≡ contract_mint_failed)
dropped_lem_example =
    dropped_lem any_address dropping_chain attached_connector (codes "0xd") 1000 tt tt refl refl
      refl refl refl refl
