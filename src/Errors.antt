-- ===== src/Errors.antt =====
-- The errors of the SDK (src/errors.ts): their codes, classes and messages.
use open_ttt.Prelude.{Text, codes, ◌++◌}

pub data ErrorCode : Type 0 where
  config_missing_signer config_invalid : ErrorCode
  signer_not_initialized signer_missing_key signer_invalid_key_format signer_no_eip712 : ErrorCode
  signer_privy_not_implemented signer_kms_aws_init_failed signer_kms_gcp_missing_fields : ErrorCode
  signer_kms_gcp_init_failed signer_kms_unsupported_provider signer_unsupported_type : ErrorCode
  network_invalid_rpc network_connection_failed network_cannot_reconnect : ErrorCode
  network_reconnection_exhausted network_tx_dropped network_provider_not_connected : ErrorCode
  network_block_not_found : ErrorCode
  contract_signer_not_connected contract_invalid_address contract_not_attached : ErrorCode
  contract_burn_failed contract_mint_failed contract_balance_query_failed : ErrorCode
  contract_swap_failed contract_invalid_key_format : ErrorCode
  time_synthesis_integrity_failed time_synthesis_insufficient_confidence : ErrorCode
  time_synthesis_source_not_found time_synthesis_all_sources_failed : ErrorCode
  time_synthesis_pot_all_failed time_synthesis_self_verify_failed : ErrorCode
  fee_calculation_failed : ErrorCode

unfoldable pub code_text : ErrorCode → Text
code_text config_missing_signer = codes "TTT_E001"
code_text config_invalid = codes "TTT_E002"
code_text signer_not_initialized = codes "TTT_E010"
code_text signer_missing_key = codes "TTT_E011"
code_text signer_invalid_key_format = codes "TTT_E012"
code_text signer_no_eip712 = codes "TTT_E013"
code_text signer_privy_not_implemented = codes "TTT_E014"
code_text signer_kms_aws_init_failed = codes "TTT_E015"
code_text signer_kms_gcp_missing_fields = codes "TTT_E016"
code_text signer_kms_gcp_init_failed = codes "TTT_E017"
code_text signer_kms_unsupported_provider = codes "TTT_E018"
code_text signer_unsupported_type = codes "TTT_E019"
code_text network_invalid_rpc = codes "TTT_E020"
code_text network_connection_failed = codes "TTT_E021"
code_text network_cannot_reconnect = codes "TTT_E022"
code_text network_reconnection_exhausted = codes "TTT_E023"
code_text network_tx_dropped = codes "TTT_E024"
code_text network_provider_not_connected = codes "TTT_E025"
code_text network_block_not_found = codes "TTT_E026"
code_text contract_signer_not_connected = codes "TTT_E030"
code_text contract_invalid_address = codes "TTT_E031"
code_text contract_not_attached = codes "TTT_E032"
code_text contract_burn_failed = codes "TTT_E033"
code_text contract_mint_failed = codes "TTT_E034"
code_text contract_balance_query_failed = codes "TTT_E035"
code_text contract_swap_failed = codes "TTT_E036"
code_text contract_invalid_key_format = codes "TTT_E037"
code_text time_synthesis_integrity_failed = codes "TTT_E040"
code_text time_synthesis_insufficient_confidence = codes "TTT_E041"
code_text time_synthesis_source_not_found = codes "TTT_E042"
code_text time_synthesis_all_sources_failed = codes "TTT_E043"
code_text time_synthesis_pot_all_failed = codes "TTT_E044"
code_text time_synthesis_self_verify_failed = codes "TTT_E045"
code_text fee_calculation_failed = codes "TTT_E050"

pub data ErrorClass : Type 0 where
  config_error signer_error network_error contract_error time_synthesis_error fee_error : ErrorClass

pub record TttError : Type 0 where
  pub class : ErrorClass
  pub code : ErrorCode
  pub message : Text

-- With a code, a message, a reason and a fix.
unfoldable pub ttt_error : ErrorClass → ErrorCode → Text → Text → Text → TttError
ttt_error class code message reason fix = record {
  class = class;
  code = code;
  message =
      codes "["
      ++ (code_text code
          ++ (codes "] "
              ++ (message
                  ++ (codes " (Reason: " ++ (reason ++ (codes ". Fix: " ++ (fix ++ codes ")")))))));
}
