-- ===== src/Defines/Verb.antt =====
-- include/jet/defines.h: the request types.
use jetpeer_cpp.Base.{String}

abbrev pub add : String
add = "add"

abbrev pub remove : String
remove = "remove"

abbrev pub fetch : String
fetch = "fetch"

abbrev pub unfetch : String
unfetch = "unfetch"

abbrev pub call : String
call = "call"

abbrev pub set : String
set = "set"

abbrev pub get : String
get = "get"

abbrev pub config : String
config = "config"

abbrev pub info : String
info = "info"

abbrev pub authenticate : String
authenticate = "authenticate"

abbrev pub change : String
change = "change"
