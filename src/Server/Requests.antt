-- ===== src/Server/Requests.antt =====
-- The requests of the clients (src/websocket_proxy.cpp): opening, subscribing, sending.
use websocket_proxy.Base.{
  ℕ, suc, ◌+◌, ◌%◌, ◌^◌, Bool, true, false, Option, none, some, [], ◌∷◌, ◌++◌, Text, text_eq,
  nat_eq, if◌then◌else◌,
}
use websocket_proxy.Base.Maps.{find, emplace}
use websocket_proxy.Base.Sets.{insert}
use websocket_proxy.Base.Decimal.{to_string}
use websocket_proxy.Protocol.{success, failed, WsOpen, Body, open_ws, Message, c_string}
use websocket_proxy.Url.{parse_url, Address}
use websocket_proxy.Server.State.{
  SocketStatus, connecting, connected, disconnected, is_live, Websocket, WebsocketKey, Server,
  respond, spawn, async_read, emit, put_socket, socket_id, key_eq,
}
use websocket_proxy.Server.Callbacks.{on_ws_opened}
use websocket_proxy.Server.Sockets.{
  with_socket, set_status, fail, OpenResult, opened, resolve_failed, connect_failed, sni_failed,
  ssl_handshake_failed, handshake_failed, name_port,
}
use websocket_proxy.Server.Clients.{get_client}

-- A handler returns, or an exception leaves it.
pub data Outcome : Type 0 where
  returned : Server → Outcome
  thrown : Server → Outcome

-- The constructor of `Websocket`, once it has its address.
abbrev pub new_websocket : WsOpen → Address → ℕ → Websocket
new_websocket req at id = record {
  url = c_string 512 req.url;
  api_key = c_string 512 req.api_key;
  host = at.host;
  path = at.path;
  port = at.port;
  id = id;
  clients = [];
  subscriptions = [];
  status = disconnected;
  r_buffer = [];
  w_buffer = [];
}

-- The next value of the counter `websocket_id_`, a uint32_t.
abbrev pub next_count : Server → ℕ
next_count s = (s.websocket_id + 1) % 2 ^ 32

-- The object is made, and the coroutine is spawned with a reference to the message.
abbrev pub start_open : Message → WsOpen → Address → Server → Server
start_open msg req at s = emit (spawn s.allocated) (
    put_socket s.allocated (new_websocket req at (socket_id s.pid (next_count s))) (record s {
      websocket_id = next_count s;
      allocated = suc s.allocated;
      opening =
          record {
            address = s.allocated;
            message = record msg { body = open_ws (record req { new_connection = true }) };
          }
          ∷ s.opening;
    }))

-- openNewWs: the counter is raised before the constructor can throw.
unfoldable pub open_new_ws : Message → WsOpen → Server → Outcome
open_new_ws msg req s = elim (parse_url (c_string 512 req.url)) [
  | none ↦ thrown (record s { websocket_id = next_count s })
  | some at ↦ returned (start_open msg req at s)
]

abbrev pub request_key : WsOpen → WebsocketKey
request_key req = record { url = c_string 512 req.url; api_key = c_string 512 req.api_key }

abbrev pub is_connecting : SocketStatus → Bool
is_connecting connecting = true
is_connecting connected = false
is_connecting _ = false

-- The branch of `openWs` that shares an open socket.
unfoldable pub join_socket : Message → WsOpen → ℕ → Websocket → Server → Server
unfolding on_ws_opened
join_socket msg req a w s =
    emit
      (respond (record msg {
        status = success;
        body = open_ws (record req {
          id = w.id;
          client_pid = msg.pid;
          new_connection = is_connecting w.status;
        });
      }))
      (on_ws_opened w.id msg.pid (put_socket a (record w { clients = insert msg.pid w.clients }) s))

-- The socket of a key, if it is neither disconnecting nor disconnected.
abbrev pub live_socket : WebsocketKey → Server → Option (ℕ × Websocket)
live_socket key s = elim (find key s.by_key) [
  | none ↦ none
  | some a ↦ elim (s.heap a) [
    | none ↦ none
    | some w ↦ if is_live w.status then some (a, w) else none
  ]
]

-- snprintf(req->err, 256, "Client %llu not found", msg.pid)
abbrev pub client_not_found : ℕ → Text
client_not_found pid =
    b'C' ∷ b'l' ∷ b'i' ∷ b'e' ∷ b'n' ∷ b't' ∷ b' ' ∷ []
    ++ (to_string pid ++ b' ' ∷ b'n' ∷ b'o' ∷ b't' ∷ b' ' ∷ b'f' ∷ b'o' ∷ b'u' ∷ b'n' ∷ b'd' ∷ [])

-- The branch of `openWs` that has found the client.
unfoldable pub open_for : Message → WsOpen → Server → Outcome
unfolding join_socket
open_for msg req t = elim (live_socket (request_key req) t) [
  | some (a, w) ↦ returned (join_socket msg req a w t)
  | none ↦ open_new_ws msg req t
]

-- openWs
unfoldable pub handle_open : Message → WsOpen → Server → Outcome
handle_open msg req s =
    let (found, t) = get_client msg.pid s in
    if found
    then open_for msg req t
    else returned (
        emit
          (respond (record msg {
            status = failed;
            body = open_ws (record req { err = client_not_found msg.pid });
          }))
          t)

-- The coroutine begins.
unfoldable pub open_begin : ℕ → Server → Server
open_begin a = set_status connecting a

-- callback(true)
unfoldable pub open_succeeded : ℕ → Message → WsOpen → Server → Server
unfolding on_ws_opened
open_succeeded a msg req = with_socket a λ w s.
    let key = request_key req in
    emit
      (respond (record msg {
        status = success;
        body = open_ws (record req { id = w.id; client_pid = msg.pid });
      }))
      (let t = on_ws_opened w.id msg.pid s in
        record (put_socket a (record w { clients = insert msg.pid w.clients }) t) {
          by_key = emplace key a t.by_key;
          by_id = emplace w.id a t.by_id;
        })

abbrev pub opened_request : ℕ → Message → Body → Server → Server
opened_request a msg (open_ws req) = open_succeeded a msg req
opened_request a msg _ = λ s. s

-- The coroutine ends.
unfoldable pub open_end : ℕ → Message → OpenResult → Server → Server
unfolding name_port
open_end a msg (opened port) s =
    opened_request a msg msg.body
      (emit (async_read a) (set_status connected a (name_port a port s)))
open_end a msg (resolve_failed ec) s = fail a ec (some msg) s
open_end a msg (connect_failed ec) s = fail a ec (some msg) s
open_end a msg (sni_failed ec) s = fail a ec (some msg) s
open_end a msg (ssl_handshake_failed port ec) s = fail a ec (some msg) (name_port a port s)
open_end a msg (handshake_failed port ec) s = fail a ec (some msg) (name_port a port s)
