-- ===== src/EvmConnector.antt =====
-- The EVM connector (src/evm_connector.ts): its state, connecting with fallbacks, reconnecting and
-- disconnecting, contracts and event listeners. Providers are named by their URL, contracts by their
-- address. What happens when a URL is dialled is an argument; logging is left out.
pub mod Events
pub mod Dial
pub mod Faults
pub mod Sound
pub mod Reach
pub mod Calls
mod Tests
use Prim.Native.Nat.{min}
use open_ttt.Prelude.{
  ℕ, zero, suc, ◌+◌, ◌%◌, Bool, true, false, not, ◌&&◌, ◌||◌, Option, none, some, List, [], ◌∷◌,
  ◌++◌, Text, codes, length, get_elem?, keep_if, is_some, ◌==◌, if◌then◌else◌,
}
use open_ttt.Errors.{
  TttError, ttt_error, network_error, contract_error, network_invalid_rpc,
  network_connection_failed, network_cannot_reconnect, network_reconnection_exhausted,
  contract_invalid_key_format, contract_signer_not_connected, contract_invalid_address,
}

pub data Result {ℓ} (X : Type ℓ) : Type ℓ where
  err : TttError → Result X
  ok : X → Result X

-- What comes of dialling a URL: a provider that cannot be made, a wallet that cannot be made on the
-- provider, a network that cannot be reached, each with the error's message, or a connection.
pub data Answer : Type 0 where
  no_provider no_wallet no_network : Text → Answer
  up : Answer

pub data SignerOrKey (S : Type 0) : Type 0 where
  key : Text → SignerOrKey S
  signer : S → SignerOrKey S

-- `new ethers.Wallet(key, provider)`, and `s.connect ? s.connect(provider) : s`.
pub record Wallets (S : Type 0) : Type 0 where
  pub wallet : Text → Text → S
  pub attach : S → Text → S

pub data Event : Type 0 where
  minted burned fee_collected : Event

-- A handler that is registered with a contract for an event.
pub record Listener : Type 0 where
  pub contract : Text
  pub event : Event
  pub handler : ℕ

pub record Connector (S : Type 0) : Type 0 where
  pub provider : Option Text
  pub current_signer : Option S
  pub ttt_contract : Option Text
  pub protocol_fee_contract : Option Text
  pub event_listeners : List Listener
  pub primary_rpc_url : Text
  pub fallback_rpc_urls : List Text
  pub signer_or_key : Option (SignerOrKey S)
  pub max_reconnect_attempts : ℕ
  pub connected : Bool
  -- The handlers that the contracts hold, and the number of those made so far.
  pub registered : List Listener
  pub made : ℕ

unfoldable pub invalid_rpc_error : TttError
invalid_rpc_error =
    ttt_error network_error network_invalid_rpc (codes "[EVM] Invalid RPC URL")
      (codes "The provided RPC URL is empty or not a string")
      (codes "Pass a valid RPC URL (e.g., https://mainnet.base.org)")

unfoldable pub invalid_key_error : TttError
invalid_key_error =
    ttt_error contract_error contract_invalid_key_format (codes "[EVM] Invalid Private Key format")
      (codes "Private key must be 0x + 64 hex characters")
      (codes "Provide a valid 32-byte hex private key.")

unfoldable pub connection_failed_error : Text → TttError
connection_failed_error reason =
    ttt_error network_error network_connection_failed (codes "[EVM] Connection failed") reason
      (codes "Verify your RPC URL and network connectivity.")

unfoldable pub cannot_reconnect_error : TttError
cannot_reconnect_error =
    ttt_error network_error network_cannot_reconnect (codes "[EVM] Cannot reconnect")
      (codes "No previous connection credentials stored") (codes "Call connect() first.")

-- With the text of the number of attempts.
unfoldable pub exhausted_error : Text → TttError
exhausted_error attempts =
    ttt_error network_error network_reconnection_exhausted (codes "[EVM] Reconnection failed")
      (codes "All " ++ (attempts ++ codes " attempts exhausted"))
      (codes "Check RPC provider status and network connectivity.")

-- `startsWith("0x") && length === 66`.
unfoldable pub is_key_format : Text → Bool
is_key_format (a ∷ b ∷ rest) = (a == b'0') && (b == b'x') && (length rest == 64)
is_key_format rest = false

abbrev pub is_empty : Text → Bool
is_empty [] = true
is_empty (c ∷ cs) = false

module _ {S : Type 0} where
  -- An empty key counts as no credentials.
  abbrev pub has_credentials : Option (SignerOrKey S) → Bool
  has_credentials none = false
  has_credentials (some (key k)) = not (is_empty k)
  has_credentials (some (signer s)) = true

  abbrev pub has_bad_key : SignerOrKey S → Bool
  has_bad_key (key k) = not (is_key_format k)
  has_bad_key (signer s) = false

  unfoldable pub new_connector : List Text → ℕ → Connector S
  new_connector fallbacks max_attempts = record {
    provider = none;
    current_signer = none;
    ttt_contract = none;
    protocol_fee_contract = none;
    event_listeners = [];
    primary_rpc_url = [];
    fallback_rpc_urls = fallbacks;
    signer_or_key = none;
    max_reconnect_attempts = max_attempts;
    connected = false;
    registered = [];
    made = 0;
  }

  unfoldable pub is_connected : Connector S → Bool
  is_connected c = c.connected && is_some c.provider

module _ {S : Type 0} (wallets : Wallets S) where
  abbrev pub signer_on : Text → SignerOrKey S → S
  signer_on url (key k) = wallets.wallet k url
  signer_on url (signer s) = wallets.attach s url

  -- One round of a `try` block: a new provider, the signer on it, and the network's answer.
  unfoldable pub attempt : Answer → Text → SignerOrKey S → Connector S → Connector S × Bool
  attempt (no_provider m) url who c = (c, false)
  attempt (no_wallet m) url who c = (record c { provider = some url }, false)
  attempt (no_network m) url who c =
      (record c { provider = some url; current_signer = some (signer_on url who) }, false)
  attempt up url who c = (
    record c { provider = some url; current_signer = some (signer_on url who); connected = true },
    true,
  )

  -- The loop over the fallbacks, which is left at the first that answers; the answer may depend on
  -- how many were tried before.
  unfoldable pub try_urls :
      (ℕ → Text → Answer) → ℕ → List Text → SignerOrKey S → Connector S → Connector S × Bool
  try_urls dial i [] who c = (c, false)
  try_urls dial i (url ∷ urls) who c =
      let (c', done) = attempt (dial i url) url who c in
      let rest = try_urls dial (suc i) urls who c' in if done then (c', true) else rest
