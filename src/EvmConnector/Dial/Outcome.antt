-- ===== src/EvmConnector/Dial/Outcome.antt =====
-- Where connecting and reconnecting end (src/evm_connector.ts).
use open_ttt.Prelude.{
  ℕ, suc, ◌≡◌, refl, ◌∙◌, Bool, true, false, ◌&&◌, Option, none, some, List, [], ◌∷◌, Text, is_some,
  if◌then◌else◌,
}
use open_ttt.EvmConnector.{
  Result, ok, err, Answer, no_provider, no_wallet, no_network, up, SignerOrKey, Wallets, Connector,
  connection_failed_error, is_empty, has_bad_key, signer_on, attempt, try_urls,
}
use open_ttt.EvmConnector.Dial.{message_of, has_provider, closed_with, connect_with, connect}

-- The first URL of a list that answers, where the first is dialled as number `i`.
abbrev found_or : Answer → Text → Option Text → Option Text
found_or up url later = some url
found_or (no_provider m) url later = later
found_or (no_wallet m) url later = later
found_or (no_network m) url later = later

abbrev pub first_up : (ℕ → Text → Answer) → ℕ → List Text → Option Text
first_up dial i [] = none
first_up dial i (url ∷ urls) = found_or (dial i url) url (first_up dial (suc i) urls)

module _ {S : Type 0} (wallets : Wallets S) where
  abbrev pub IsUpOn : Text → SignerOrKey S → Connector S → Type 0
  IsUpOn url who c =
      (c.provider ≡ some url)
      × (c.current_signer ≡ some (signer_on wallets url who))
      × (c.connected ≡ true)

  -- What a failure leaves: the flag as it was, and a provider if there was one.
  abbrev pub IsAsBefore : Connector S → Connector S → Type 0
  IsAsBefore c d =
      (d.connected ≡ c.connected) × (is_some c.provider ≡ true → is_some d.provider ≡ true)

  -- Where dialling leads: to the URL that answered, or nowhere.
  abbrev pub EndsAt : Option Text → SignerOrKey S → Connector S → Connector S × Bool → Type 0
  EndsAt (some url) who c (d, done) = (done ≡ true) × IsUpOn url who d
  EndsAt none who c (d, done) = (done ≡ false) × IsAsBefore c d

  -- The same for a call, with the error of one that leads nowhere.
  abbrev pub Closes :
      Result (Unit {0})
      → Option Text
      → SignerOrKey S
      → Connector S
      → Connector S × Result (Unit {0})
      → Type 0
  Closes failure (some url) who c (d, r) = (r ≡ ok tt) × IsUpOn url who d
  Closes failure none who c (d, r) = (r ≡ failure) × IsAsBefore c d

  EndsAt-later :
      (o : Option Text) (who : SignerOrKey S) (c d : Connector S) (out : Connector S × Bool)
      → IsAsBefore c d
      → EndsAt o who d out
      → EndsAt o who c out
  EndsAt-later (some url) who c d (e, done) h k = k
  EndsAt-later none who c d (e, done) (same, has) (failed, (same', has')) =
      (failed, (same' ∙ same, λ p. has' (has p)))

  attempt_failed :
      (answer : Answer) (url : Text) (later : Option Text) (who : SignerOrKey S) (c : Connector S)
      (rest : Connector S × Bool)
      → EndsAt later who (attempt wallets answer url who c).0 rest
      → EndsAt (found_or answer url later) who c (
          if (attempt wallets answer url who c).1
          then ((attempt wallets answer url who c).0, true)
          else rest)
  unfolding attempt
  attempt_failed up url later who c rest h = (refl, (refl, refl, refl))
  attempt_failed (no_provider m) url later who c rest h =
      EndsAt-later later who c c rest (refl, λ p. p) h
  attempt_failed (no_wallet m) url later who c rest h =
      EndsAt-later later who c _ rest (refl, λ p. refl) h
  attempt_failed (no_network m) url later who c rest h =
      EndsAt-later later who c _ rest (refl, λ p. refl) h

  module _ (dial : ℕ → Text → Answer) where
    pub try_urls_lem :
        (i : ℕ) (urls : List Text) (who : SignerOrKey S) (c : Connector S)
        → EndsAt (first_up dial i urls) who c (try_urls wallets dial i urls who c)
    unfolding try_urls
    try_urls_lem i [] who c = (refl, (refl, λ p. p))
    try_urls_lem i (url ∷ urls) who c =
        attempt_failed (dial i url) url (first_up dial (suc i) urls) who c _
          (try_urls_lem (suc i) urls who (attempt wallets (dial i url) url who c).0)

    -- Whether the first check of the key is reached and fails.
    abbrev pub is_refused : Text → SignerOrKey S → Bool
    is_refused url who = has_provider (dial 0 url) && has_bad_key who

    closed_lem :
        (o : Option Text) (who : SignerOrKey S) (c : Connector S) (failure : Result (Unit {0}))
        (out : Connector S × Bool)
        → EndsAt o who c out
        → Closes failure o who c (closed_with out failure)
    closed_lem (some url) who c failure (d, true) (e, h) = (refl, h)
    closed_lem (some url) who c failure (d, false) (e, h) = cc
    closed_lem none who c failure (d, true) (e, h) = cc
    closed_lem none who c failure (d, false) (e, h) = (refl, h)

    dialled :
        (done : Bool) (x : Connector S) (o : Option Text) (who : SignerOrKey S) (c : Connector S)
        (failure : Result (Unit {0})) (out : Connector S × Bool)
        → EndsAt o who c (if done then (x, true) else out)
        → Closes failure o who c (if done then (x, ok tt) else closed_with out failure)
    dialled true x o who c failure out h = closed_lem o who c failure (x, true) h
    dialled false x o who c failure out h = closed_lem o who c failure out h

    attempt-fallbacks :
        (answer : Answer) (url : Text) (who : SignerOrKey S) (c : Connector S)
        → (attempt wallets answer url who c).0.fallback_rpc_urls ≡ c.fallback_rpc_urls
    unfolding attempt
    attempt-fallbacks (no_provider m) url who c = refl
    attempt-fallbacks (no_wallet m) url who c = refl
    attempt-fallbacks (no_network m) url who c = refl
    attempt-fallbacks up url who c = refl

    connect_with_lem :
        (url : Text) (who : SignerOrKey S) (c : Connector S)
        → is_refused url who ≡ false
        → Closes
            (err (connection_failed_error (message_of (dial 0 url))))
            (first_up dial 0 (url ∷ c.fallback_rpc_urls))
            who
            c
            (connect_with wallets dial url who c)
    unfolding connect_with
    connect_with_lem url who c fine =
        rw (fine, attempt-fallbacks (dial 0 url) url who c)
          (dialled (attempt wallets (dial 0 url) url who c).1
            (attempt wallets (dial 0 url) url who c).0 (first_up dial 0 (url ∷ c.fallback_rpc_urls))
            who c _
            (try_urls wallets dial 1 c.fallback_rpc_urls who
              (attempt wallets (dial 0 url) url who c).0)
            (attempt_failed (dial 0 url) url (first_up dial 1 c.fallback_rpc_urls) who c _
              (try_urls_lem 1 c.fallback_rpc_urls who (attempt wallets (dial 0 url) url who c).0)))

    -- A connection with a URL and with a key of the right form, or a signer, ends at the first of the
    -- primary URL and the fallbacks that answers, with a signer on it; if none answers it fails with
    -- the message of the primary one's failure, and whether the connector counts as connected stays
    -- as it was: one that was connected is still said to be.
    pub connect_lem :
        (url : Text) (who : SignerOrKey S) (c : Connector S)
        → is_empty url ≡ false
        → is_refused url who ≡ false
        → Closes
            (err (connection_failed_error (message_of (dial 0 url))))
            (first_up dial 0 (url ∷ c.fallback_rpc_urls))
            who
            c
            (connect wallets dial url who c)
    unfolding connect
    connect_lem url who c given fine = rw given (
        stored (first_up dial 0 (url ∷ c.fallback_rpc_urls)) _ (
          connect_with_lem url who (record c { primary_rpc_url = url; signer_or_key = some who })
            fine))
      where
        stored :
            (o : Option Text) (out : Connector S × Result (Unit {0}))
            → Closes
                (err (connection_failed_error (message_of (dial 0 url))))
                o
                who
                (record c { primary_rpc_url = url; signer_or_key = some who })
                out
            → Closes (err (connection_failed_error (message_of (dial 0 url)))) o who c out
        stored (some u) (d, r) h = h
        stored none (d, r) h = h
