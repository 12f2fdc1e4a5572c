-- ===== src/Types/Errors.antt =====
-- The exceptions of include/decof/exceptions.h and src/core/exceptions.cpp.
use de_co_f.Base.{ℕ, Bytes, codes}

-- The classes derived from `runtime_error`.
pub data Error : Type 0 where
  access_denied_error invalid_parameter_error wrong_type_error invalid_value_error : Error
  unknown_operation_error parse_error not_implemented_error : Error
  invalid_userlevel_error not_subscribed_error : Error

-- `enum error_codes`.
pub data ErrorCode : Type 0 where
  success unknown_error parse_error access_denied invalid_parameter wrong_type : ErrorCode
  invalid_value unknown_operation invalid_userlevel not_subscribed not_implemented : ErrorCode
  protocol_specific_errors : ErrorCode

unfoldable pub code_number : ErrorCode → ℕ
code_number success = 0
code_number unknown_error = 1
code_number ErrorCode.parse_error = 2
code_number access_denied = 3
code_number invalid_parameter = 4
code_number wrong_type = 5
code_number invalid_value = 6
code_number unknown_operation = 7
code_number invalid_userlevel = 8
code_number not_subscribed = 9
code_number not_implemented = 10
code_number protocol_specific_errors = 11

-- `runtime_error::code`, as each constructor sets it.
unfoldable pub error_code : Error → ErrorCode
error_code access_denied_error = access_denied
error_code invalid_parameter_error = invalid_parameter
error_code wrong_type_error = wrong_type
error_code invalid_value_error = invalid_value
error_code unknown_operation_error = unknown_operation
error_code Error.parse_error = ErrorCode.parse_error
error_code not_implemented_error = not_implemented
error_code invalid_userlevel_error = invalid_userlevel
error_code not_subscribed_error = not_subscribed

-- `runtime_error::what`, as each constructor sets it.
unfoldable pub error_what : Error → Bytes
error_what access_denied_error = codes "Access denied"
error_what invalid_parameter_error = codes "Invalid parameter"
error_what wrong_type_error = codes "Wrong type"
error_what invalid_value_error = codes "Invalid value"
error_what unknown_operation_error = codes "Unknown operation"
error_what Error.parse_error = codes "Parse error"
error_what not_implemented_error = codes "Not implemented"
error_what invalid_userlevel_error = codes "Invalid userlevel"
error_what not_subscribed_error = codes "Not subscribed"
