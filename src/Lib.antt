-- ===== src/Lib.antt =====
-- jetpeer-cpp: a C++ peer of the jet daemon. A peer holds one connection. It sends JSON-RPC messages in
-- frames of a length and a text, owns states and methods that others set and call, and fetches
-- states that others own. This library models the peer and proves what its parts promise.
--
-- Parts, and how they interact
--   The event loop calls `PeerAsync::receive`, which reads frames and hands each message to
--   `receiveCallback`. A message is a response, which `AsyncRequest::handleResult` gives to the request
--   that is open under its id; a notification of a fetch; or a request for a state or a method of
--   the peer, which is answered by `sendMessage`. The methods of PeerAsync enter callbacks in the
--   tables of the peer and execute an AsyncRequest. `stop` ends the connection, and `resume` makes a
--   new one and repeats the fetches.
--
-- Which file models which part
--   Base.antt              shared names, integers, texts; Base/Table.antt is `std::unordered_map`
--   Platform.antt          jsoncpp and libhbk as a record of what the code uses; Platform/Laws.antt
--                          is what a theorem may assume of them, Platform/Objects.antt follows
--   Defines.antt           include/jet/defines.h: Key, Verb, Rpc (names of the protocol), Failure
--                          (exceptions), Matching (matcher_t::print, PeerAsync::addPathInformation)
--   Peer/State.antt        the members of PeerAsync and AsyncRequest as the record `World`, and the
--                          monad of methods, which change it and may throw
--   Peer/Frame.antt        `htonl`, `ntohl` and the frame of a message
--   Peer/Send.antt         PeerAsync::sendMessage, notifyState (lib/peerasync.cpp,
--                          include/jet/peerasync.hpp)
--   Peer/Request.antt      lib/asyncrequest.cpp
--   Peer/Registry.antt     register..., unregister..., createFetchId (lib/peerasync.cpp)
--   Peer/Methods.antt      the asynchronous methods (lib/peerasync.cpp)
--   Peer/Dispatch.antt     receiveCallback and handleMessage (lib/peerasync.cpp)
--   Peer/Lifecycle.antt    constructor, destructor, start, stop, resume (lib/peerasync.cpp)
--   Peer/Receive.antt      receive (lib/peerasync.cpp); Peer/Receive/Stream.antt says where a reader
--                          stands in a stream of frames
--   Peer/Sync.antt         lib/peer.cpp and lib/syncrequest.cpp: the methods that wait; those of
--                          lib/peer.cpp and include/jet/peer.hpp that do not are in Forwards
--   Defines/Errors.antt    the constructors of lib/jsoncpprpc_exception.cpp
--   Defines/Entries.antt   its constructor from entries, and dataEntries
--   Mock.antt              include/jet/peerasyncmock.hpp
--   Peer/Runs.antt         the life of a peer: executed requests, messages, notifiers and stops, in any
--                          order
--   Jetstate.antt          the callback of the state in tool/jetstate.cpp
--   Tools.antt             the programs of tool/: Tools/Arguments and Tools/Values what they read in the
--                          command line, Tools/Programs main of jetcat, jetcatexternaleventloop,
--                          jetcatsync, jetcache, jetget and jetinfo, Tools/Cat and Tools/Lines what is
--                          printed, Tools/Call exec.cpp and jetmethod.cpp, Tools/Speed measureSpeed.cpp
--   Notifier.antt          tool/notifier.cpp, tool/notifier.h
--   Routing.antt           tool/qxrouting: Device, RoutedDevice and the functions of Routing.cpp
--   Simulation.antt        lib_simulation/peerasync.cpp; Simulation/Peer.antt lib_simulation/peer.cpp
--   Cache.antt             the class cache of tool/cache.cpp, tool/cache.h
--   Tests.antt             a platform that runs, and the results applied to it
--   The children of a module hold its theorems.
--
-- Bounds and fuel
--   `receive` is a loop of steps on fuel: a step is one call of the socket or one message. Fuel above
--   twice the number of bytes that are there, plus two, is enough, whatever they are. Ids of requests
--   wrap at 2 ^ 32 and ids of fetches at 2 ^ 31, as `++` on the C++ types does. The size of a message
--   is at most MAX_MESSAGE_SIZE = 262144.
--
-- What is not modelled
--   Callbacks of users are numbers that name them, or functions that return or throw; they do not call
--   back into the peer. Mutexes and threads: the methods run one at a time. Logging. The branches for
--   Windows. `std::unordered_map` is a list, whose order stands for the order of iteration. The keys
--   of hbk::jsonrpc are not in the repository, and are spelled as the comments of defines.h show them.
--   The tables of other peers of the process, whose requests stand in the same static table of open
--   requests: such a request is one of a user here. Which side of `response[RESULT] = callback(...)`
--   a compiler for C++11 evaluates first: the callback is taken to run first.
--   The event loop that runs while a synchronous method waits is an argument of that method.
--   The constructor and the destructor of Peer, which start and join its thread, and Peer::local.
--   Of tool/qxrouting: setSyslog, the wait in the constructor of Device, and main. The connection of a
--   routed device is a parameter, which may throw.
--   Of the command line tools: their event loops, the texts on the syntax, the handlers that print an
--   exception, and the clock and main of measureSpeed. atoi, strtod, basename and the bytes of a text
--   are arguments.
pub mod Base
pub mod Platform
pub mod Defines
pub mod Peer
pub mod Cache
pub mod Jetstate
pub mod Mock
pub mod Notifier
pub mod Routing
pub mod Simulation
pub mod Tools
pub mod Tests
