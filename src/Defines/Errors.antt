-- ===== src/Defines/Errors.antt =====
-- The constructors of jsoncpprpcException (lib/jsoncpprpc_exception.cpp), and the two exceptions for
-- parameters (include/jet/defines.h). Those of jsoncpprpcException are `noexcept`: where an
-- access throws, the program is terminated, which is `none` here.
use jetpeer_cpp.Base.{ℤ, String, ◌<>◌, int_to_string, Option, none, some, if◌then◌else◌, minus_one}
use jetpeer_cpp.Platform.{Platform, Value, is_null}
use jetpeer_cpp.Defines.Failure.{Failure, JsoncppRpcException}
use jetpeer_cpp.Defines.Rpc

module _ ⦃P : Platform⦄ where
  open P use {null, member, as_int, as_string, styled}

  abbrev pub what_of : ℤ → String → Value → String
  what_of code message detail =
      let text = "code: " <> (int_to_string code <> (", message: " <> message)) in
      if is_null detail then text else text <> (", data: " <> styled detail)

  -- jsoncpprpcException(code, message, data)
  abbrev pub with_detail : ℤ → String → Value → JsoncppRpcException
  with_detail code message detail = record {
    code = code;
    message = message;
    what = what_of code message detail;
    data_obj = detail;
  }

  -- jsoncpprpcException(code, message)
  abbrev pub without_detail : ℤ → String → JsoncppRpcException
  without_detail code message = record {
    code = code;
    message = message;
    what = "code: " <> (int_to_string code <> (", message: " <> message));
    data_obj = null;
  }

  -- wrongParameterNumberException, missingParameterException
  abbrev pub wrong_parameter_number : Failure
  wrong_parameter_number =
      Failure.jsonrpc_exception minus_one "wrong number of parameters for method"

  abbrev pub missing_parameter : String → Failure
  missing_parameter name =
      Failure.jsonrpc_exception minus_one ("missing parameter '" <> (name <> "' for method"))

  infixl 5 ◌>>=◌
  abbrev ◌>>=◌ : {A B : Type 0} → Option A → (A → Option B) → Option B
  none >>= f = none
  some a >>= f = f a

  -- jsoncpprpcException(error), of a response
  unfoldable pub of_response : Value → Option JsoncppRpcException
  of_response response = do
    error ← member response Rpc.err
    code_node ← member error Rpc.code
    code ← as_int code_node
    message_node ← member error Rpc.message
    message ← as_string message_node
    detail ← member error Rpc.detail
    some (with_detail code message detail)
