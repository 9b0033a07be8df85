-- ===== src/EvmConnector/Calls.antt =====
-- The calls of contracts (src/evm_connector.ts): attaching, minting, burning, balances and swaps.
-- What ethers answers to each step of a call is an argument.
pub mod Errors
use open_ttt.Prelude.{
  ℕ, ◌*◌, ◌/◌, Bool, true, false, not, ◌&&◌, Option, none, some, List, [], ◌∷◌, ◌++◌, Text, codes,
  is_some, if◌then◌else◌,
}
use open_ttt.Errors.{TttError, ErrorClass, network_error, contract_error}
use open_ttt.EvmConnector.{Result, ok, err, Connector, is_empty}
use open_ttt.EvmConnector.Faults.{
  timed_out, submit_dropped, mint_dropped, burn_dropped, swap_dropped, not_attached_error,
  no_signer_error, invalid_address_error, burn_failed, mint_failed, balance_failed, swap_failed,
  quoted,
}

-- What a `catch` gets: an error of the SDK, an object, or another value, with its text.
pub data Thrown : Type 0 where
  sdk : TttError → Thrown
  -- The fields `reason`, `data.message` and `message` where they are strings, and `String(e)`.
  object : Option Text → Option Text → Option Text → Text → Thrown
  -- null and undefined.
  nothing : Thrown
  other_value : Text → Thrown

pub data Tried {ℓ} (X : Type ℓ) : Type ℓ where
  throws : Thrown → Tried X
  gives : X → Tried X

-- `error instanceof TTTNetworkError || error instanceof TTTContractError`.
abbrev pub is_thrown_again : ErrorClass → Bool
is_thrown_again network_error = true
is_thrown_again contract_error = true
is_thrown_again e = false

infixl 5 ◌>>=◌
abbrev pub ◌>>=◌ {κ μ} : {X : Type κ} {Y : Type μ} → Tried X → (X → Tried Y) → Tried Y
throws e >>= next = throws e
gives x >>= next = next x

-- A promise that may never settle.
pub data Promised : Type 0 where
  settles : Tried ℕ → Promised
  pending : Promised

abbrev pub first_text : Option Text → Text → Text
first_text none t = t
first_text (some s) t = s

unfoldable pub extract_revert_reason : Thrown → Text
extract_revert_reason (sdk e) = e.message
extract_revert_reason (object reason data_message message shown) =
    first_text reason (first_text data_message (first_text message shown))
extract_revert_reason nothing = codes "Unknown EVM error"
extract_revert_reason (other_value shown) = shown

-- `Promise.race` of an estimate and the timer.
unfoldable pub with_timeout : Promised → Tried ℕ
with_timeout (settles t) = t
with_timeout pending = throws (sdk timed_out)

unfoldable pub gas_limit : ℕ → ℕ
gas_limit estimate = estimate * 120 / 100

-- What ethers does with one transaction: the estimate, the sending with a gas limit if there is one,
-- and the receipt that is waited for, `none` for a dropped transaction.
pub record Chain (R : Type 0) : Type 0 where
  pub estimate : Promised
  pub send : Option ℕ → Tried (Unit {0})
  pub wait : Tried (Option R)

module _ {R : Type 0} where
  abbrev pub received : TttError → Option R → Tried R
  received dropped none = throws (sdk dropped)
  received dropped (some r) = gives r

  unfoldable pub send_estimated : TttError → Chain R → Tried R
  send_estimated dropped chain = do
    estimate ← with_timeout chain.estimate
    _ ← chain.send (some (gas_limit estimate))
    receipt ← chain.wait
    received dropped receipt

  unfoldable pub send_plain : TttError → Chain R → Tried R
  send_plain dropped chain = do _ ← chain.send none; receipt ← chain.wait; received dropped receipt

module _ {ℓ} {X : Type ℓ} where
  -- `catch (error) { throw failure(reason) }`.
  unfoldable pub wrap_all : (Text → TttError) → Tried X → Result X
  wrap_all failure (throws e) = err (failure (extract_revert_reason e))
  wrap_all failure (gives x) = ok x

  -- The same, but a network or contract error of the SDK is thrown again.
  unfoldable pub wrap_others : (Text → TttError) → Tried X → Result X
  wrap_others failure (throws (sdk e)) =
      if is_thrown_again e.class then err e else err (failure e.message)
  wrap_others failure (throws (object r d m s)) =
      err (failure (extract_revert_reason (object r d m s)))
  wrap_others failure (throws nothing) = err (failure (extract_revert_reason nothing))
  wrap_others failure (throws (other_value s)) =
      err (failure (extract_revert_reason (other_value s)))
  wrap_others failure (gives x) = ok x

  abbrev pub guarded : Bool → TttError → Result X → Result X
  guarded true e result = result
  guarded false e result = err e

module _ {S : Type 0} {R : Type 0} where
  unfoldable pub submit_ttt_record : Chain R → Connector S → Result R
  submit_ttt_record chain c =
      guarded (is_some c.ttt_contract)
        (not_attached_error (codes "Call attachContract() with valid TTT address before burning."))
        (wrap_others (burn_failed (codes "Verify your TTT balance and tier parameters."))
          (send_estimated submit_dropped chain))

  -- `burnTTT` sends without an estimate, and any failure is a failed burn.
  unfoldable pub burn_ttt : Chain R → Connector S → Result R
  burn_ttt chain c =
      guarded (is_some c.ttt_contract)
        (not_attached_error (codes "Call attachContract() before burning."))
        (wrap_all (burn_failed (codes "Check TTT balance.")) (send_plain burn_dropped chain))

module _ {S : Type 0} where
  abbrev pub attached :
      Connector S → Connector S → Result (Unit {0}) → Connector S × Result (Unit {0})
  attached before after (err e) = (before, err e)
  attached before after (ok u) = (after, ok u)

-- `to && ethers.isAddress(to)`.
abbrev pub is_valid : (Text → Bool) → Text → Bool
is_valid is_address address = not (is_empty address) && is_address address

module _ {S : Type 0} (is_address : Text → Bool) where
  unfoldable pub mint_ttt : {R : Type 0} → Text → Chain R → Connector S → Result R
  mint_ttt to chain c =
      guarded (is_some c.ttt_contract)
        (not_attached_error (codes "Call attachContract() before minting."))
        (guarded (is_valid is_address to)
          (invalid_address_error (codes "recipient address")
            (quoted to (codes "not a valid EVM address"))
            (codes "Provide a valid destination address."))
          (wrap_all mint_failed (send_estimated mint_dropped chain)))

  unfoldable pub swap : {R : Type 0} → Text → Chain R → Connector S → Result R
  swap router chain c =
      guarded (is_some c.current_signer)
        (no_signer_error (codes "Signer is null") (codes "Initialize connection."))
        (guarded (is_valid is_address router)
          (invalid_address_error (codes "router address") (quoted router (codes "invalid"))
            (codes "Provide valid V4 SwapRouter address."))
          (wrap_others swap_failed (send_estimated swap_dropped chain)))

  -- The checks of both `attach` functions.
  unfoldable pub check_attach : Text → Connector S → Result (Unit {0})
  check_attach address c =
      guarded (is_some c.current_signer)
        (no_signer_error (codes "EVMConnector.connect() must be called first")
          (codes "Initialize connection before attaching contracts."))
        (guarded (is_valid is_address address)
          (invalid_address_error (codes "contract address")
            (quoted address (codes "not a valid EVM address"))
            (codes "Check your config and provide a valid checksummed address."))
          (ok tt))

  unfoldable pub attach_contract : Text → Connector S → Connector S × Result (Unit {0})
  attach_contract address c =
      attached c (record c { ttt_contract = some address }) (check_attach address c)

  unfoldable pub attach_protocol_fee_contract : Text → Connector S → Connector S × Result (Unit {0})
  attach_protocol_fee_contract address c =
      attached c (record c { protocol_fee_contract = some address }) (check_attach address c)

module _ {S : Type 0} where
  -- The balance that the contract answers.
  unfoldable pub get_ttt_balance : Tried ℕ → Connector S → Result ℕ
  get_ttt_balance balance c =
      guarded (is_some c.ttt_contract)
        (not_attached_error (codes "Call attachContract() before querying balance."))
        (wrap_all balance_failed balance)
