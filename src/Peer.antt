-- ===== src/Peer.antt =====
-- The asynchronous peer: lib/peerasync.cpp, include/jet/peerasync.hpp, lib/asyncrequest.cpp.
-- `Peer/State.antt` has the state and the monad of the methods; each further module has a group of
-- methods, and its children the proofs about them.
pub mod State
pub mod Frame
pub mod Send
pub mod Request
pub mod Registry
pub mod Dispatch
pub mod Methods
pub mod Lifecycle
pub mod Receive
pub mod Sync
pub mod Runs
