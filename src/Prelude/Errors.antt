-- ===== src/Prelude/Errors.antt =====
-- The errors of the packages dmsg and disc, of the io and context packages that their functions
-- return, those made where they occur named for what they report, and a Go result of the form (value, error).

pub data Error : Type 0 where
  err_request_rejected err_request_check_failed err_accept_check_failed : Error
  err_port_not_listening err_client_closed err_client_accept_maxed : Error
  err_closed_pipe eof unexpected_eof write_error ctx_done port_busy : Error
  decrypt_failed sign_failed signature_error err_key_not_found : Error
  err_validation_no_version err_validation_no_signature err_validation_no_client_or_server : Error
  err_validation_nil_keys err_validation_wrong_sequence err_validation_wrong_time : Error
  err_validation_non_zero_sequence err_validation_nil_ephemerals : Error
  err_validation_non_nil_ephemerals err_unexpected err_unauthorized err_bad_input : Error
  http_failed decode_failed not_ok not_server not_client err_no_srv servers_failed : Error
  servers_unavailable accept_failed already_closed short_write already_serving entry_not_found :
      Error

pub data Result {ℓ} (A : Type ℓ) : Type ℓ where
  ok : A → Result A
  err : Error → Result A
