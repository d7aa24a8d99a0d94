-- ===== src/Protocol.antt =====
-- include/websocket_proxy/types.h: the messages that the processes exchange. A `char` array is the
-- list of its bytes; a message's `type` is the constructor of its body.
use websocket_proxy.Base.{
  ◌≡◌, false, All, ℕ, zero, suc, ◌+◌, ◌-◌, ◌%◌, ◌^◌, Bool, [], ◌∷◌, Text, if◌then◌else◌, ◌==◌,
}

pub data Status : Type 0 where
  pending success failed : Status

pub record RegisterMessage : Type 0 where
  pub name : Text
  pub server_pid : ℕ
  pub err : Text

pub record WsOpen : Type 0 where
  pub url : Text
  pub api_key : Text
  pub client_pid : ℕ
  pub id : ℕ
  pub new_connection : Bool
  pub err : Text

pub record WsClose : Type 0 where
  pub id : ℕ

-- The bits of `SubscriptionType`.
abbrev pub quotes : ℕ
quotes = 1

abbrev pub trades : ℕ
trades = 2

pub record WsSubscription : Type 0 where
  pub symbol : Text
  pub id : ℕ
  pub request_len : ℕ
  pub existing : Bool
  pub type : ℕ
  pub request : Text

pub record WsRequest : Type 0 where
  pub id : ℕ
  pub len : ℕ
  pub bytes : Text

pub record WsError : Type 0 where
  pub id : ℕ
  pub len : ℕ
  pub err : Text

pub record WsData : Type 0 where
  pub id : ℕ
  pub len : ℕ
  pub remaining : ℕ
  pub bytes : Text

-- `Message::Type` with the structure that `data` holds for it.
pub data Body : Type 0 where
  register : RegisterMessage → Body
  unregister : Body
  open_ws : WsOpen → Body
  close_ws : WsClose → Body
  heartbeat : Body
  ws_request : WsRequest → Body
  ws_data : WsData → Body
  ws_error : WsError → Body
  subscribe : WsSubscription → Body
  unsubscribe : WsSubscription → Body
  log_level : ℕ → Body
  unknown : ℕ → Body

pub record Message : Type 0 where
  pub pid : ℕ
  pub status : Status
  pub body : Body

-- HEARTBEAT_INTERVAL and HEARTBEAT_TIMEOUT, in milliseconds
abbrev pub heartbeat_interval : ℕ
heartbeat_interval = 500

abbrev pub heartbeat_timeout : ℕ
heartbeat_timeout = 15000

-- uint64_t a - b
abbrev pub sub64 : ℕ → ℕ → ℕ
sub64 a b = (a + 2 ^ 64 - b) % 2 ^ 64

-- The bytes of a `char` array of `n` bytes before its first NUL, as `strnlen` counts them.
unfoldable pub c_string : ℕ → Text → Text
c_string zero t = []
c_string (suc n) [] = []
c_string (suc n) (c ∷ t) = let rest = c_string n t in if c == 0 then [] else c ∷ rest

-- No byte is a NUL.
abbrev pub NoNul : Text → Type 0
NoNul = All (λ b. (b == 0) ≡ false)
