-- ===== src/Peer/State.antt =====
-- The members of PeerAsync, the static members of AsyncRequest and PeerAsync, and the monad of
-- methods: they change the state and may throw, and what was written before a throw stays written.
use jetpeer_cpp.Base.{ℕ, ℤ, String, Option, none, some, Bool, List, ◌∷◌}
use jetpeer_cpp.Base.Table.{Table}
use jetpeer_cpp.Platform.{Platform, Value, Socket}
use jetpeer_cpp.Defines.{Fetcher, SetStateCbResult}
use jetpeer_cpp.Defines.Failure.{Failure, Outcome, ok, raised}

-- responseCallback_t. A callback of the user is a number that names it; the others are the lambdas
-- that the methods of this peer make, with what they capture. `fulfils` sets the promise of a
-- SyncRequest. The table of open requests is static, and so holds the requests of other peers of the
-- process too. Such a lambda of another peer acts on the tables of that peer, which are not in
-- `World`; of this peer it changes nothing, and it then calls the callback of its user. It stands in
-- the table as that `user`.
pub data ResponseCb : Type 0 where
  user : ℕ → ResponseCb
  method_added : String → ℕ → ResponseCb
  state_added : String → ℕ → ResponseCb
  fetch_added : ℤ → ℕ → ResponseCb
  fulfils : ℕ → ResponseCb

-- AsyncRequest::Request. An error notifier is kept as the code and message that its lambda captured.
pub record Request : Type 0 where
  pub response_callback : Option ResponseCb
  pub error_notifier : Option (ℤ × String)

module _ ⦃P : Platform⦄ where
  -- Callbacks of the user: what they return or throw.
  abbrev pub StateCb : Type 0
  StateCb = Value → String → Outcome SetStateCbResult

  abbrev pub MethodCb : Type 0
  MethodCb = Value → Outcome Value

  -- What can be seen from outside, and the messages that the peer dispatched.
  pub data Effect : Type 0 where
    -- bytes that the socket took
    wrote : List ℕ → Effect
    -- the beginning of a frame, that the socket took before it failed
    cut_off : List ℕ → Effect
    -- receiveCallback(data) was called
    dispatched : Value → Effect
    -- callback(notification, status) of a fetcher
    fetch_called : Option ℕ → Value → ℤ → Effect
    -- callbacks of states and methods
    state_called : String → Value → Effect
    method_called : String → Value → Effect
    -- resultCallback(result) of the user
    response_called : ℕ → Value → Effect
    promise_set : ℕ → Value → Effect

  pub record World : Type 0 where
    -- PeerAsync
    pub address : String
    pub port : ℕ
    pub name : String
    pub debug : Bool
    pub socket : Socket
    pub stopped : Bool
    -- the first m_lengthBufferLevel bytes of m_bigEndianLengthBuffer
    pub length_buffer : List ℕ
    -- m_dataBuffer.size(), and the first m_dataBufferLevel bytes of m_dataBuffer
    pub data_size : ℕ
    pub data_buffer : List ℕ
    pub state_callbacks : Table String (Option StateCb)
    pub method_callbacks : Table String MethodCb
    pub fetchers : Table ℤ Fetcher
    -- AsyncRequest::m_sid, m_openRequestCbs: shared by all peers of the process
    pub sid : ℕ
    pub open_requests : Table ℕ Request
    -- PeerAsync::m_sfetchId
    pub sfetch_id : ℤ
    -- newest first
    pub trace : List Effect

  abbrev pub M : Type 0 → Type 0
  M A = World → Outcome A × World

  abbrev pub pure : {A : Type 0} → A → M A
  pure a w = (ok a, w)

  abbrev pub throw : {A : Type 0} → Failure → M A
  throw e w = (raised e, w)

  abbrev pub continue : {A B : Type 0} → Outcome A → (A → M B) → M B
  continue (ok a) f w = f a w
  continue (raised e) f w = (raised e, w)

  infixl 5 ◌>>=◌ ◌>>◌
  abbrev pub ◌>>=◌ : {A B : Type 0} → M A → (A → M B) → M B
  ◌>>=◌ m f w = let (r, w') = m w in continue r f w'

  abbrev pub ◌>>◌ : {B : Type 0} → M (Unit {0}) → M B → M B
  m >> k = m >>= λ _. k

  -- A call that never throws.
  abbrev pub modify : (World → World) → M (Unit {0})
  modify f w = (ok tt, f w)

  abbrev pub emit : Effect → M (Unit {0})
  emit e w = (ok tt, record w { trace = e ∷ w.trace })

  -- An access of jsoncpp that throws Json::LogicError, which is a std::exception.
  abbrev pub json_error : Failure
  json_error = Failure.std_exception "Json::LogicError"

  abbrev pub or_throw : {A : Type 0} → Option A → M A
  or_throw none w = (raised json_error, w)
  or_throw (some a) w = (ok a, w)
