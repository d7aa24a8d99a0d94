-- ===== src/Client/State.antt =====
-- The state of a client: the members of `WebsocketProxyClient`
-- (include/websocket_proxy/websocket_proxy_client.h), and how it sends. The caller's thread and the
-- worker thread take turns here: each operation and each round of the worker is one step. The code
-- dereferences a null pointer when something is sent before the client has connected; here it is sent.
use websocket_proxy.Base.{
  ℕ, suc, Bool, true, false, not, ◌&&◌, List, [], ◌∷◌, Text, ltb, ◌==◌, if◌then◌else◌,
}
use websocket_proxy.Protocol.{
  Status, pending, success, failed, Body, heartbeat, Message, heartbeat_interval, sub64,
}
use websocket_proxy.Server.Callbacks.{message_size}

-- A call of the queue to the server, or of `WebsocketProxyCallback`. Log messages are left out.
pub data Call : Type 0 where
  publish_request : ℕ → Message → Call
  server_disconnected : Call
  websocket_opened : ℕ → Call
  websocket_closed : ℕ → Call
  websocket_error : ℕ → Text → Call
  websocket_data : ℕ → Text → ℕ → Call

-- `clock n` is what call number `n` of `get_timestamp` returns, and `reads` counts the calls.
-- The newest call stands first.
pub record Client : Type 0 where
  pub pid : ℕ
  pub clock : ℕ → ℕ
  pub reads : ℕ
  pub server_pid : ℕ
  pub has_queue : Bool  -- whether `server_queue_` holds a queue
  pub server_queue_index : ℕ
  pub last_heartbeat_time : ℕ
  pub last_server_heartbeat_time : ℕ
  pub id : ℕ
  pub name : Text
  pub run : Bool
  pub websockets : List ℕ
  pub calls : List Call

-- The constructor.
abbrev pub new_client_of : ℕ → Text → (ℕ → ℕ) → Client
new_client_of pid name clock = record {
  pid = pid;
  clock = clock;
  reads = 0;
  server_pid = 0;
  has_queue = false;
  server_queue_index = 0;
  last_heartbeat_time = 0;
  last_server_heartbeat_time = 0;
  id = 0;
  name = name;
  run = true;
  websockets = [];
  calls = [];
}

abbrev pub call : Call → Client → Client
call x c = record c { calls = x ∷ c.calls }

-- What the next call of `get_timestamp` returns, and the state behind it.
abbrev pub client_now : Client → ℕ
client_now c = c.clock c.reads

abbrev pub client_tick : Client → Client
client_tick c = record c { reads = suc c.reads }

-- `reserveMessage` clears the message and sets the sender; 0 is PENDING.
abbrev pub request : Client → Body → Message
request c body = record { pid = c.pid; status = pending; body = body }

-- sendMessage
unfoldable pub send_request : ℕ → Message → Client → Client
send_request size msg c = record (client_tick (call (publish_request size msg) c)) {
  last_heartbeat_time = client_now c;
}

-- sendHeartbeat, with whether it sent one
unfoldable pub client_heartbeat : ℕ → Client → Bool × Client
unfolding send_request
client_heartbeat time c =
    if not (c.server_pid == 0) && ltb heartbeat_interval (sub64 time c.last_heartbeat_time)
    then (true, send_request message_size (request c heartbeat) c)
    else (false, c)

-- unregister
unfoldable pub unregister_from : Client → Client
unfolding send_request
unregister_from c = record (send_request message_size (request c Body.unregister) c) {
  server_pid = 0;
}

abbrev pub is_pending : Status → Bool
is_pending pending = true
is_pending success = false
is_pending failed = false

abbrev pub is_failed : Status → Bool
is_failed pending = false
is_failed success = false
is_failed failed = true
