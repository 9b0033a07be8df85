-- ===== src/EvmConnector/Dial/Again.antt =====
-- Where reconnecting ends (src/evm_connector.ts).
use Prim.Native.Nat.{min}
use native.Mathlib.Nat.{mod-eq_of_lt}
use open_ttt.Prelude.{
  ℕ, zero, suc, ◌+◌, ◌%◌, ◌≤◌, ◌<◌, ◌≡◌, refl, ap, ◌∙◌, Bool, true, false, Option, none, some, List,
  [], ◌∷◌, Text, length, take, drop, get_elem?, if◌then◌else◌, arith,
}
use open_ttt.Errors.{TttError}
use open_ttt.EvmConnector.{
  Result, ok, err, Answer, SignerOrKey, Wallets, Connector, exhausted_error, has_credentials,
  is_connected, attempt, try_urls,
}
use open_ttt.EvmConnector.Events.{unsubscribe_all}
use open_ttt.EvmConnector.Dial.{disconnect, all_urls, reconnect_rounds, reconnect_with, reconnect}
use open_ttt.EvmConnector.Dial.Outcome.{first_up, IsUpOn, EndsAt, try_urls_lem}

drop_next :
    (i : ℕ) (xs : List Text)
    → i < length xs
    → (x : Text) × (get_elem? xs i ≡ some x) × (drop i xs ≡ x ∷ drop (suc i) xs)
drop_next i [] h = absurd (omega arith)
drop_next zero (x ∷ xs) h = (x, refl, refl)
drop_next (suc i) (x ∷ xs) h = drop_next i xs (omega arith)

min-zero : (n : ℕ) → min 0 n ≡ 0
min-zero n = omega arith

min-suc : (n m : ℕ) → min (suc n) (suc m) ≡ suc (min n m)
min-suc n m = omega arith

take_none : (n : ℕ) → take {A = Text} n [] ≡ []
take_none zero = refl
take_none (suc n) = refl

take-min : (n : ℕ) (xs : List Text) → take (min n (length xs)) xs ≡ take n xs
take-min zero xs = rw (min-zero (length xs)) refl
take-min (suc n) [] = take_none (min (suc n) 0)
take-min (suc n) (x ∷ xs) =
    ap (λ k. take k (x ∷ xs)) (min-suc n (length xs)) ∙ ap (λ l. x ∷ l) (take-min n xs)

module _ {S : Type 0} (wallets : Wallets S) (dial : ℕ → Text → Answer) where
  -- The rounds dial the URLs from the `i`-th on, one after another.
  rounds_lem :
      (n i : ℕ) (urls : List Text) (who : SignerOrKey S) (c : Connector S)
      → n + i ≤ length urls
      → reconnect_rounds wallets dial n i urls who c
        ≡ try_urls wallets dial i (take n (drop i urls)) who c
  unfolding reconnect_rounds try_urls
  rounds_lem zero i urls who c h = refl
  rounds_lem (suc n) i urls who c h =
      let (url, found, next) = drop_next i urls (omega arith) in
      let at : i % length urls ≡ i = mod-eq_of_lt (omega arith) in
      let (c', done) = attempt wallets (dial i url) url who c in
      rw (at, found, next)
        (ap (λ rest. if done then (c', true) else rest)
          (rounds_lem n (suc i) urls who c' (omega arith)))

  -- How a reconnection ends: connected to the URL that answered, or not connected.
  abbrev pub Reconnects :
      TttError → Option Text → SignerOrKey S → Connector S × Result (Unit {0}) → Type 0
  Reconnects failure (some url) who (d, r) = (r ≡ ok tt) × IsUpOn wallets url who d
  Reconnects failure none who (d, r) = (r ≡ err failure) × (is_connected d ≡ false)

  reconnected :
      (o : Option Text) (who : SignerOrKey S) (c : Connector S) (failure : TttError)
      (out : Connector S × Bool)
      → EndsAt wallets o who c out
      → Reconnects failure o who
          (if out.1 then (out.0, ok tt) else (record out.0 { connected = false }, err failure))
  unfolding is_connected
  reconnected (some url) who c failure (d, true) (e, h) = (refl, h)
  reconnected (some url) who c failure (d, false) (e, h) = cc
  reconnected none who c failure (d, true) (e, h) = cc
  reconnected none who c failure (d, false) (e, h) = (refl, refl)

  reconnect_with_lem :
      (attempts : Text) (who : SignerOrKey S) (c : Connector S)
      → Reconnects
          (exhausted_error attempts)
          (first_up dial 0 (take c.max_reconnect_attempts (all_urls c)))
          who
          (reconnect_with wallets dial attempts (some who) c)
  reconnect_with_lem attempts who c =
      let urls = all_urls c in
      let n = min c.max_reconnect_attempts (length urls) in
      let e : reconnect_rounds wallets dial n 0 urls who c
          ≡ try_urls wallets dial 0 (take c.max_reconnect_attempts urls) who c =
        rounds_lem n 0 urls who c (omega arith)
        ∙ ap (λ l. try_urls wallets dial 0 l who c) (take-min c.max_reconnect_attempts urls) in
      rw e (
        reconnected (first_up dial 0 (take c.max_reconnect_attempts urls)) who c
          (exhausted_error attempts)
          (try_urls wallets dial 0 (take c.max_reconnect_attempts urls) who c)
          (try_urls_lem wallets dial 0 (take c.max_reconnect_attempts urls) who c))

  credited :
      (attempts : Text) (who : SignerOrKey S) (d : Connector S) (o : Option (SignerOrKey S))
      → o ≡ some who
      → has_credentials (some who) ≡ true
      → (x : Connector S × Result (Unit {0}))
      → Reconnects
          (exhausted_error attempts)
          (first_up dial 0 (take d.max_reconnect_attempts (all_urls d)))
          who
          (if has_credentials o then reconnect_with wallets dial attempts o d else x)
  credited attempts who d o e good x = rw (e, good) (reconnect_with_lem attempts who d)

  -- A reconnection with credentials ends at the first URL that answers, among as many as there are
  -- attempts of the primary one and the fallbacks; if none of these answers it fails, and the
  -- connector counts as not connected. So the URLs beyond the number of attempts are never dialled,
  -- and none is dialled twice.
  pub reconnect_lem :
      (show : ℕ → Text) (who : SignerOrKey S) (c : Connector S)
      → c.signer_or_key ≡ some who
      → has_credentials (some who) ≡ true
      → Reconnects
          (exhausted_error (show c.max_reconnect_attempts))
          (first_up dial 0 (take c.max_reconnect_attempts (all_urls c)))
          who
          (reconnect wallets dial show c)
  unfolding reconnect disconnect unsubscribe_all all_urls
  reconnect_lem show who c stored good =
      credited (show c.max_reconnect_attempts) who (disconnect c) _ stored good _
