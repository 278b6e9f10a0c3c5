-- ===== src/Peer/Lifecycle.antt =====
-- PeerAsync::start, stop, resume, the constructor and the destructor.
pub mod Stop
pub mod Start
use jetpeer_cpp.Base.{
  ℤ, ℕ, String, ◌<>◌, none, [], ◌∷◌, Bool, true, false, if◌then◌else◌, ◌==◌, nat_eq, to_string,
  minus_one,
}
use jetpeer_cpp.Base.Table.{Table}
use jetpeer_cpp.Platform.{Platform, Socket}
use jetpeer_cpp.Defines.{Fetcher}
use jetpeer_cpp.Defines.Failure.{Failure, Outcome, ok, raised}
use jetpeer_cpp.Peer.Request.{clear}
use jetpeer_cpp.Peer.Methods.{config_async, restore_fetch}
use jetpeer_cpp.Peer.State.{World, Effect, M, modify, ◌>>◌}

module _ ⦃P : Platform⦄ where
  open P use {null, connect_tcp, connect_unix, disconnect}

  abbrev pub clear_buffers : World → World
  clear_buffers w = record w { length_buffer = []; data_size = 0; data_buffer = [] }

  -- The message of the exception names the address; the POSIX branch of the unix domain socket.
  abbrev pub connect_message : World → String
  connect_message w =
      if w.port == 0
      then "jet peerAsync could not connect to jetd (" <> (w.address <> ")!")
      else "jet peerAsync could not connect to jetd (tcp: "
        <> (w.address <> (":" <> (to_string w.port <> ")!")))

  -- retVal<0 is an exception.
  abbrev pub connect_result : Bool → World → Outcome (Unit {0}) × World
  connect_result true w = (ok tt, w)
  connect_result false w = (raised (Failure.std_exception (connect_message w)), w)

  abbrev pub connecting : World → Bool × Socket
  connecting w =
      if w.port == 0 then connect_unix w.socket w.address else connect_tcp w.socket w.address w.port

  unfoldable pub connect : M (Unit {0})
  connect w = connect_result (connecting w).0 (record w { socket = (connecting w).1 })

  -- A fetch that cannot be restored is logged, and the next one is tried.
  unfoldable pub restore_fetches : Table ℤ Fetcher → World → World
  restore_fetches [] w = w
  restore_fetches ((id, fetcher) ∷ rest) w =
      restore_fetches rest (restore_fetch fetcher.matcher id w).1

  abbrev pub set_up : M (Unit {0})
  set_up w = (do config_async w.name w.debug none; modify (λ w'. restore_fetches w'.fetchers w')) w

  unfoldable pub start : M (Unit {0})
  unfolding connect restore_fetches
  start = do modify clear_buffers; connect; set_up

  -- callback(empty, -1) of every fetcher; exceptions are ignored
  unfoldable pub notify_fetchers : Table ℤ Fetcher → World → World
  notify_fetchers [] w = w
  notify_fetchers ((_, fetcher) ∷ rest) w =
      notify_fetchers rest
        (record w { trace = Effect.fetch_called fetcher.callback null minus_one ∷ w.trace })

  abbrev pub drop_callbacks : World → World
  drop_callbacks w = record w { state_callbacks = []; method_callbacks = [] }

  unfoldable pub stop : World → World
  unfolding notify_fetchers clear
  stop w =
      let w1 = record w { stopped = true; socket = disconnect w.socket } in
      (clear (drop_callbacks (notify_fetchers w1.fetchers w1))).1

  abbrev pub resumed : Outcome (Unit {0}) × World → Outcome Bool × World
  resumed (ok _, w) = (ok true, w)
  resumed (raised e, w) = (ok false, w)

  unfoldable pub resume : M Bool
  resume w = resumed (start w)

  -- The destructor; the members of a destroyed peer are read no more.
  unfoldable pub destroy : World → World
  unfolding stop
  destroy w = record (stop w) { fetchers = [] }

  -- The members that the constructor sets, beside the static members of the process; then `start`.
  unfoldable pub construct : Socket → String → ℕ → String → Bool → M (Unit {0})
  unfolding start
  construct socket address port name debug w = start (record w {
    address = address;
    port = port;
    name = name;
    debug = debug;
    socket = socket;
    stopped = false;
    length_buffer = [];
    data_size = 0;
    data_buffer = [];
    state_callbacks = [];
    method_callbacks = [];
    fetchers = [];
  })
