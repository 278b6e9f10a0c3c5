-- ===== src/Tools/Programs.antt =====
-- What main of the tools does with a peer, up to the event loop or the end of its try block. What is
-- thrown there is printed by the handler behind it.
pub mod Starts
use jetpeer_cpp.Base.{ℕ, ℤ, String, Option, none, some, List, false, nat_eq, string_eq}
use jetpeer_cpp.Platform.{Platform, Value, Socket}
use jetpeer_cpp.Cache.{Cache, open_cache, set_cbs}
use jetpeer_cpp.Defines.Failure.{Outcome, ok, raised}
use jetpeer_cpp.Notifier.{Notifier, start}
use jetpeer_cpp.Peer.Lifecycle.{construct}
use jetpeer_cpp.Peer.Methods.{get_async}
use jetpeer_cpp.Peer.State.{World, M, ◌>>=◌, ◌>>◌}
use jetpeer_cpp.Peer.Sync.{Ending, Loop, add_fetch, info}
use jetpeer_cpp.Tools.Arguments.{Arguments}

module _ ⦃P : Platform⦄ where
  abbrev Started : Type 0
  Started = (Outcome (Unit {0}) × Notifier) × World

  -- The notifier of main, once the peer is there.
  abbrev pub with_notifier : Arguments → Notifier → Outcome (Unit {0}) × World → Started
  with_notifier a n (ok _, w) = start 0 (some 0) (some 1) (some 2) a.match n w
  with_notifier a n (raised e, w) = ((raised e, n), w)

  -- The cache of main.
  abbrev pub with_cache : Cache → Outcome ℤ × World → (Outcome ℤ × Cache) × World
  with_cache c (ok id, w) = ((ok id, set_cbs (some 0) (some 1) (some 2) c), w)
  with_cache c (raised e, w) = ((raised e, c), w)

module _ ⦃P : Platform⦄ (socket : Socket) where
  -- PeerAsync peer(eventloop, address, port, name)
  abbrev pub peer : Arguments → M (Unit {0})
  peer a = construct socket a.address a.port a.program false

  -- jetcat: the callbacks 0, 1 and 2 of the notifier are `print` with "added", "changed", "removed".
  unfoldable pub cat : Arguments → Notifier → World → Started
  cat a n w = with_notifier a n (peer a w)

  -- jetcatexternaleventloop: another event loop calls PeerAsync::receive of the peer.
  unfoldable pub cat_external : Arguments → Notifier → World → Started
  cat_external a n w = with_notifier a n (peer a w)

  -- jetcache: here the callbacks are set when the cache is there, with its fetch.
  unfoldable pub jetcache : Arguments → Cache → World → (Outcome ℤ × Cache) × World
  jetcache a c w = with_cache c ((do peer a; open_cache 0 a.match) w)

  -- jetget; the callback 0 is responseCb.
  unfoldable pub jetget : Arguments → M (Unit {0})
  jetget a = do peer a; get_async a.match (some 0)

  abbrev and_then : {A : Type 0} → (World → Ending A) → Outcome (Unit {0}) × World → Ending A
  and_then f (ok _, w) = f w
  and_then f (raised e, w) = Ending.done (raised e, w)

  -- jetcatsync, up to the loop that sleeps; the callback 0 is fetchCb.
  unfoldable pub catsync : ℕ → Loop → Arguments → World → Ending ℤ
  catsync p loop a w = and_then (add_fetch p loop a.match (some 0)) (peer a w)

  -- jetinfo
  unfoldable pub jetinfo : ℕ → Loop → Arguments → World → Ending Value
  jetinfo p loop a w = and_then (info p loop) (peer a w)
