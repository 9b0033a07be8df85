-- ===== src/EvmConnector/Events/Laws.antt =====
-- Subscribing and unsubscribing (src/evm_connector.ts): the handlers that the contracts hold.
use mathlib.Core.List.{append_assoc, append-nil, map-append}
use open_ttt.Prelude.{
  ℕ, ◌≡◌, refl, sym, ap, ◌∙◌, Bool, true, false, not, ◌||◌, Option, none, some, List, [], ◌∷◌, ◌++◌,
  map, Text, keep_if, All, ◌==◌, arith, ==_refl,
}
use open_ttt.EvmConnector.{Event, minted, burned, fee_collected, Listener, Connector}
use open_ttt.EvmConnector.Events.{
  Callbacks, off_all, unsubscribe_all, listen, without_old, subscribe_to_events,
}

abbrev has_handler : ℕ → List Listener → Bool
has_handler h [] = false
has_handler h (u ∷ us) = (h == u.handler) || has_handler h us

abbrev Covered : List Listener → List Listener → Type 0
Covered us = All (λ l. has_handler l.handler us ≡ true)

Covered-keep_if :
    (u : Listener) (us rs : List Listener)
    → Covered (u ∷ us) rs
    → Covered us (keep_if (λ l. not (l.handler == u.handler)) rs)
Covered-keep_if u us [] h = tt
Covered-keep_if u us (r ∷ rs) (h, hs) = ground (arith, Covered-keep_if u us rs hs)

off_all-Covered : (us rs : List Listener) → Covered us rs → off_all us rs ≡ []
unfolding off_all
off_all-Covered [] [] h = refl
off_all-Covered [] (r ∷ rs) (h, hs) = cc
off_all-Covered (u ∷ us) rs h =
    off_all-Covered us (keep_if (λ l. not (l.handler == u.handler)) rs) (Covered-keep_if u us rs h)

Covered-more : (u : Listener) (us rs : List Listener) → Covered us rs → Covered (u ∷ us) rs
Covered-more u us [] h = tt
Covered-more u us (r ∷ rs) (h, hs) = (ground arith, Covered-more u us rs hs)

Covered-self : (us : List Listener) → Covered us us
Covered-self [] = tt
Covered-self (u ∷ us) = (rw (==_refl u.handler) refl, Covered-more u us us (Covered-self us))

pub off_all_self : (us : List Listener) → off_all us us ≡ []
off_all_self us = off_all-Covered us us (Covered-self us)

-- What a handler listens to.
abbrev pub place : Listener → Text × Event
place l = (l.contract, l.event)

abbrev pub places : List Listener → List (Text × Event)
places = map place

-- The place that one callback asks for.
abbrev pub wanted : Option Text → Bool → Event → List (Text × Event)
wanted (some contract) true event = (contract, event) ∷ []
wanted (some contract) false event = []
wanted none b event = []

module _ {S : Type 0} where
  -- The contracts hold the handlers that the connector will take back, and no others.
  abbrev pub IsTracking : Connector S → Type 0
  IsTracking c = c.registered ≡ c.event_listeners

  abbrev pub all_wanted : Callbacks → Connector S → List (Text × Event)
  all_wanted callbacks c =
      wanted c.ttt_contract callbacks.on_minted minted
      ++ (wanted c.ttt_contract callbacks.on_burned burned
          ++ wanted c.protocol_fee_contract callbacks.on_fee_collected fee_collected)

  pub unsubscribe_all-empty :
      (c : Connector S)
      → IsTracking c
      → ((unsubscribe_all c).registered ≡ []) × ((unsubscribe_all c).event_listeners ≡ [])
  unfolding unsubscribe_all
  unsubscribe_all-empty c h = (rw h (off_all_self c.event_listeners), refl)

  -- What stays the same.
  pub record Kept (c d : Connector S) : Type 0 where
    pub provider : c.provider ≡ d.provider
    pub current_signer : c.current_signer ≡ d.current_signer
    pub ttt_contract : c.ttt_contract ≡ d.ttt_contract
    pub protocol_fee_contract : c.protocol_fee_contract ≡ d.protocol_fee_contract
    pub connected : c.connected ≡ d.connected

  abbrev kept_refl : (c : Connector S) → Kept c c
  kept_refl c = record {
    provider = refl;
    current_signer = refl;
    ttt_contract = refl;
    protocol_fee_contract = refl;
    connected = refl;
  }

  kept_trans : (c d e : Connector S) → Kept c d → Kept d e → Kept c e
  kept_trans c d e h k = record {
    provider = h.provider ∙ k.provider;
    current_signer = h.current_signer ∙ k.current_signer;
    ttt_contract = h.ttt_contract ∙ k.ttt_contract;
    protocol_fee_contract = h.protocol_fee_contract ∙ k.protocol_fee_contract;
    connected = h.connected ∙ k.connected;
  }

  -- What a step adds to the handlers, all else kept.
  abbrev Adds : Connector S → Connector S → List (Text × Event) → Type 0
  Adds d c ps = IsTracking d × (places d.registered ≡ places c.registered ++ ps) × Kept d c

  listened :
      (o : Option Text) (b : Bool) (e : Event) (c : Connector S)
      → IsTracking c
      → Adds (listen o b e c) c (wanted o b e)
  unfolding listen
  listened (some contract) true e c h =
      let l : Listener = record { contract = contract; event = e; handler = c.made } in
      (
        ap (λ ls. ls ++ l ∷ []) h,
        map-append place c.registered (l ∷ []),
        record {
          provider = refl;
          current_signer = refl;
          ttt_contract = refl;
          protocol_fee_contract = refl;
          connected = refl;
        },
      )
  listened (some contract) false e c h = (h, sym (append-nil (places c.registered)), kept_refl c)
  listened none b e c h = (h, sym (append-nil (places c.registered)), kept_refl c)

  cleared :
      (ls : List Listener) (c : Connector S)
      → c.event_listeners ≡ ls
      → IsTracking c
      → IsTracking (without_old ls c)
        × ((without_old ls c).registered ≡ [])
        × Kept (without_old ls c) c
  unfolding unsubscribe_all
  cleared [] c e h = (h, h ∙ e, kept_refl c)
  cleared (l ∷ ls) c e h =
      let gone = (unsubscribe_all-empty c h).0 in
      (
        gone,
        gone,
        record {
          provider = refl;
          current_signer = refl;
          ttt_contract = refl;
          protocol_fee_contract = refl;
          connected = refl;
        },
      )

  pub subscribed :
      (callbacks : Callbacks) (c : Connector S)
      → IsTracking c
      → IsTracking (subscribe_to_events callbacks c)
        × (places (subscribe_to_events callbacks c).registered ≡ all_wanted callbacks c)
        × Kept (subscribe_to_events callbacks c) c
  unfolding subscribe_to_events
  subscribed callbacks c h =
      let c0 = without_old c.event_listeners c in
      let c1 = listen c.ttt_contract callbacks.on_minted minted c0 in
      let c2 = listen c.ttt_contract callbacks.on_burned burned c1 in
      let c3 = listen c.protocol_fee_contract callbacks.on_fee_collected fee_collected c2 in
      let (h0, none_left, k0) = cleared c.event_listeners c refl h in
      let (h1, p1, k1) = listened c.ttt_contract callbacks.on_minted minted c0 h0 in
      let (h2, p2, k2) = listened c.ttt_contract callbacks.on_burned burned c1 h1 in
      let (h3, p3, k3) =
        listened c.protocol_fee_contract callbacks.on_fee_collected fee_collected c2 h2 in
      (
        h3,
        p3
            ∙ ap (λ l. l ++ wanted c.protocol_fee_contract callbacks.on_fee_collected fee_collected)
                (p2
                  ∙ ap (λ l. l ++ wanted c.ttt_contract callbacks.on_burned burned)
                      (p1
                        ∙ ap (λ l. places l ++ wanted c.ttt_contract callbacks.on_minted minted)
                            none_left))
            ∙ append_assoc (wanted c.ttt_contract callbacks.on_minted minted)
                (wanted c.ttt_contract callbacks.on_burned burned)
                (wanted c.protocol_fee_contract callbacks.on_fee_collected fee_collected),
        kept_trans c3 c2 c k3 (kept_trans c2 c1 c k2 (kept_trans c1 c0 c k1 k0)),
      )
