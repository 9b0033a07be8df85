-- ===== src/EvmConnector/Faults.antt =====
-- The errors that the connector throws when a contract is called (src/evm_connector.ts).
use open_ttt.Prelude.{◌++◌, Text, codes}
use open_ttt.Errors.{
  TttError, ttt_error, network_error, contract_error, network_connection_failed, network_tx_dropped,
  contract_signer_not_connected, contract_invalid_address, contract_not_attached,
  contract_burn_failed, contract_mint_failed, contract_balance_query_failed, contract_swap_failed,
}

unfoldable pub timed_out : TttError
timed_out =
    ttt_error network_error network_connection_failed (codes "[EVM] Operation timed out")
      (codes "RPC did not respond within 5000ms")
      (codes "Check your RPC provider status or increase timeout.")

abbrev dropped_error : Text → Text → Text → TttError
dropped_error = ttt_error network_error network_tx_dropped

-- The errors for a dropped transaction.
unfoldable pub submit_dropped : TttError
submit_dropped =
    dropped_error (codes "[EVM] Transaction failed")
      (codes "Transaction was dropped from mempool or null receipt")
      (codes "Check block explorer for tx status.")

unfoldable pub mint_dropped : TttError
mint_dropped =
    dropped_error (codes "[EVM] Mint TX dropped") (codes "Transaction was dropped from mempool")
      (codes "Check operator account for nonce collisions.")

unfoldable pub burn_dropped : TttError
burn_dropped =
    dropped_error (codes "[EVM] Burn TX dropped") (codes "Transaction was dropped from mempool")
      (codes "Verify account balance.")

unfoldable pub swap_dropped : TttError
swap_dropped =
    dropped_error (codes "[EVM] Swap TX dropped") (codes "Transaction dropped")
      (codes "Check gas price.")

-- With the fix.
unfoldable pub not_attached_error : Text → TttError
not_attached_error =
    ttt_error contract_error contract_not_attached (codes "Contract not attached")
      (codes "TTT contract instance is null")

unfoldable pub no_signer_error : Text → Text → TttError
no_signer_error =
    ttt_error contract_error contract_signer_not_connected (codes "Not connected to signer")

-- With what the address is of, the reason and the fix.
unfoldable pub invalid_address_error : Text → Text → Text → TttError
invalid_address_error what =
    ttt_error contract_error contract_invalid_address (codes "[EVM] Invalid " ++ what)

unfoldable pub burn_failed : Text → Text → TttError
burn_failed fix reason =
    ttt_error contract_error contract_burn_failed (codes "[EVM] Burn failed") reason fix

unfoldable pub mint_failed : Text → TttError
mint_failed reason =
    ttt_error contract_error contract_mint_failed (codes "[EVM] Mint failed") reason
      (codes "Ensure operator has minter role and sufficient gas.")

unfoldable pub balance_failed : Text → TttError
balance_failed reason =
    ttt_error contract_error contract_balance_query_failed (codes "[EVM] Balance query failed")
      reason (codes "Check RPC connection and contract address.")

unfoldable pub swap_failed : Text → TttError
swap_failed reason =
    ttt_error contract_error contract_swap_failed (codes "[EVM] Swap failed") reason
      (codes "Verify slippage and token balances.")

abbrev pub quoted : Text → Text → Text
quoted address rest = codes "Address '" ++ (address ++ (codes "' is " ++ rest))
