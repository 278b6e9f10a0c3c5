-- ===== src/Defines/Failure.antt =====
-- Exceptions: hbk::exception::jsonrpcException, the class derived from it in
-- lib/jsoncpprpc_exception.cpp, std::exception, and all else that can be thrown.
use jetpeer_cpp.Base.{ℤ, String}
use jetpeer_cpp.Platform.{Platform, Value}

module _ ⦃P : Platform⦄ where
  pub record JsoncppRpcException : Type 0 where
    pub code : ℤ
    pub message : String
    pub what : String
    pub data_obj : Value

  pub data Failure : Type 0 where
    jsonrpc_exception : ℤ → String → Failure
    jsoncpprpc_exception : JsoncppRpcException → Failure
    std_exception : String → Failure
    other : Failure

  -- What a function that may throw gives.
  pub data Outcome (A : Type 0) : Type 0 where
    ok : A → Outcome A
    raised : Failure → Outcome A
