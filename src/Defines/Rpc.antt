-- ===== src/Defines/Rpc.antt =====
-- The members of JSON-RPC objects (hbk::jsonrpc), spelled as in the messages that include/jet/defines.h
-- and include/jet/peerasync.hpp show.
use jetpeer_cpp.Base.{String}

abbrev pub jsonrpc : String
jsonrpc = "jsonrpc"

abbrev pub id : String
id = "id"

abbrev pub method : String
method = "method"

abbrev pub params : String
params = "params"

abbrev pub result : String
result = "result"

abbrev pub err : String
err = "error"

abbrev pub code : String
code = "code"

abbrev pub message : String
message = "message"

abbrev pub detail : String
detail = "data"
