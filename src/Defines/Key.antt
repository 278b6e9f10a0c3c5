-- ===== src/Defines/Key.antt =====
-- include/jet/defines.h: the keys of parameters, events, matchers and access rights.
use jetpeer_cpp.Base.{String}

abbrev pub name : String
name = "name"

abbrev pub dbg : String
dbg = "debug"

abbrev pub path : String
path = "path"

abbrev pub args : String
args = "args"

abbrev pub value : String
value = "value"

abbrev pub timeout : String
timeout = "timeout"

abbrev pub fetch_only : String
fetch_only = "fetchOnly"

abbrev pub event : String
event = "event"

abbrev pub contains : String
contains = "contains"

abbrev pub starts_with : String
starts_with = "startsWith"

abbrev pub ends_with : String
ends_with = "endsWith"

abbrev pub equals : String
equals = "equals"

abbrev pub equals_not : String
equals_not = "equalsNot"

abbrev pub contains_all_of : String
contains_all_of = "containsAllOf"

abbrev pub case_insensitive : String
case_insensitive = "caseInsensitive"

abbrev pub warning : String
warning = "warning"

abbrev pub user : String
user = "user"

abbrev pub password : String
password = "password"

abbrev pub access : String
access = "access"

abbrev pub fetch_groups : String
fetch_groups = "fetchGroups"

abbrev pub set_groups : String
set_groups = "setGroups"

abbrev pub call_groups : String
call_groups = "callGroups"
