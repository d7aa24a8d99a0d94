-- ===== src/Server/State.antt =====
-- The state of the proxy process: the members of `WebsocketProxy` (src/websocket_proxy.h) and the
-- `Websocket` objects that its maps and its coroutines share (src/websocket.h).
use websocket_proxy.Base.{
  ℕ, suc, ◌+◌, ◌*◌, ◌%◌, ◌^◌, ◌≡◌, ◌↔◌, Bool, true, false, ◌&&◌, Option, some, List, ◌∷◌, Text, Eq,
  text_beq, text_beq_iff, if◌then◌else◌, ◌==◌, arith,
}
use websocket_proxy.Base.Maps.{Map}
use websocket_proxy.Protocol.{Message}

-- Websocket::Status
pub data SocketStatus : Type 0 where
  connecting connected disconnecting disconnected : SocketStatus

-- status_ < Status::DISCONNECTING
abbrev pub is_live : SocketStatus → Bool
is_live connecting = true
is_live connected = true
is_live disconnecting = false
is_live disconnected = false

pub record Subscription : Type 0 where
  pub type : ℕ
  pub clients : List ℕ

-- The stream's own state belongs to Boost.Beast and is not here; its two buffers are.
pub record Websocket : Type 0 where
  pub url : Text
  pub api_key : Text
  pub host : Text
  pub path : Text
  pub port : ℕ
  pub id : ℕ
  pub clients : List ℕ
  pub subscriptions : Map Text Subscription
  pub status : SocketStatus
  pub r_buffer : Text
  pub w_buffer : Text

pub record WebsocketKey : Type 0 where
  pub url : Text
  pub api_key : Text

-- WebsocketKeyEqual
abbrev pub key_beq : WebsocketKey → WebsocketKey → Bool
key_beq a b = text_beq a.url b.url && text_beq a.api_key b.api_key

pub key_beq_iff : (a b : WebsocketKey) → (key_beq a b ≡ true) ↔ (a ≡ b)
key_beq_iff a b = ground (arith, text_beq_iff a.url b.url, text_beq_iff a.api_key b.api_key)

instance abbrev pub key_eq : Eq WebsocketKey
key_eq = record { beq = key_beq; beq_iff = key_beq_iff }

abbrev pub key_of : Websocket → WebsocketKey
key_of w = record { url = w.url; api_key = w.api_key }

pub record ClientInfo : Type 0 where
  pub pid : ℕ
  pub last_heartbeat_time : ℕ

-- A call of a library that the program makes; `respond` is the store of a message's status, with
-- what the message holds then. Objects are named by their address.
pub data Effect : Type 0 where
  publish : ℕ → Message → Effect
  publish_closed : ℕ → Effect
  respond : Message → Effect
  spawn : ℕ → Effect
  async_read : ℕ → Effect
  async_write : ℕ → Text → Effect
  async_close : ℕ → Effect
  set_level : ℕ → Effect
  start_timer : Effect

-- What `ioc_.post` was given and has not run.
pub data Task : Type 0 where
  first_heartbeat heartbeats client_message close_all stop_later : Task

-- A coroutine of `Websocket::open`, with the message whose reference its callback holds.
pub record Opening : Type 0 where
  pub address : ℕ
  pub message : Message

-- `clock n` is what call number `n` of `get_timestamp` returns, and `reads` counts the calls.
-- `heap` holds every object that `make_shared` made; `allocated` is the next address.
pub record Server : Type 0 where
  pub pid : ℕ
  pub clock : ℕ → ℕ
  pub reads : ℕ
  pub run : Bool
  pub last_heartbeat_time : ℕ
  pub shutdown_time : ℕ
  pub clients : Map ℕ ClientInfo
  pub by_id : Map ℕ ℕ
  pub by_key : Map WebsocketKey ℕ
  pub heap : ℕ → Option Websocket
  pub allocated : ℕ
  pub websocket_id : ℕ
  pub opening : List Opening
  pub posted : List Task
  pub effects : List Effect

-- The newest effect stands first.
abbrev pub emit : Effect → Server → Server
emit e s = record s { effects = e ∷ s.effects }

abbrev pub post : Task → Server → Server
post t s = record s { posted = t ∷ s.posted }

abbrev pub update : (ℕ → Option Websocket) → ℕ → Websocket → ℕ → Option Websocket
update h a w j = if a == j then some w else h j

abbrev pub put_socket : ℕ → Websocket → Server → Server
put_socket a w s = record s { heap = update s.heap a w }

-- What the next call of `get_timestamp` returns, and the state behind it.
abbrev pub now : Server → ℕ
now s = s.clock s.reads

abbrev pub tick : Server → Server
tick s = record s { reads = suc s.reads }

-- pid_ * 10000 + n, as uint64_t
abbrev pub socket_id : ℕ → ℕ → ℕ
socket_id pid n = (pid * 10000 + n) % 2 ^ 64

abbrev pub with_posted : List Task → Server → Server
with_posted ts s = record s { posted = ts }

abbrev pub with_opening : List Opening → Server → Server
with_opening os s = record s { opening = os }
