-- ===== src/Params/Written.antt =====
-- What `_request_json` does with parameters that `_assert_json_params` has accepted.
use bitcoin_core_rpc.Errors.{Exception, decimal_exponent, failure, library}
use bitcoin_core_rpc.Errors.Classes.{value_error}
use bitcoin_core_rpc.Prelude.{◌≡◌, ◌⊎◌}

-- the interpreter refuses to write a number of so many digits
abbrev pub IsDigitLimit : Exception → Type 0
IsDigitLimit e = (e ≡ failure value_error library) ⊎ (e ≡ failure value_error decimal_exponent)
