-- ===== src/Client/Sent.antt =====
-- What a client sends: its own requests, in as many bytes as their layout takes
-- (include/websocket_proxy/websocket_proxy_client.h, `reserveMessage` and `sendMessage` with their
-- callers).
use websocket_proxy.Base.{ℕ, ◌+◌, ◌%◌, ◌^◌, ◌≡◌, refl, ap, Bool, true, false, All, arith}
use websocket_proxy.Protocol.{
  Body, register, unregister, open_ws, close_ws, heartbeat, ws_request, ws_data, ws_error,
  subscribe, unsubscribe, log_level, unknown, Message,
}
use websocket_proxy.Layout.{body_size, wire_size}
use websocket_proxy.Server.Callbacks.{get_message_size}
use websocket_proxy.Client.State.{
  Call, publish_request, server_disconnected, websocket_opened, websocket_closed, websocket_error,
  websocket_data, Client, request,
}

-- What the server's `dispatch` knows how to handle, and heartbeats.
abbrev pub is_request : Body → Bool
is_request (register _) = true
is_request unregister = true
is_request (open_ws _) = true
is_request (close_ws _) = true
is_request heartbeat = true
is_request (ws_request _) = true
is_request (subscribe _) = true
is_request (unsubscribe _) = true
is_request (log_level _) = true
is_request (ws_data _) = false
is_request (ws_error _) = false
is_request (unknown _) = false

-- A request of the client, in as many bytes as its layout takes, over uint32_t.
pub record IsRequest (pid n : ℕ) (msg : Message) : Type 0 where
  pub sender : msg.pid ≡ pid
  pub size : n ≡ wire_size msg % 2 ^ 32
  pub kind : is_request msg.body ≡ true

abbrev pub IsSent : ℕ → Call → Type 0
IsSent pid (publish_request n msg) = IsRequest pid n msg
IsSent pid server_disconnected = Unit
IsSent pid (websocket_opened _) = Unit
IsSent pid (websocket_closed _) = Unit
IsSent pid (websocket_error _ _) = Unit
IsSent pid (websocket_data _ _ _) = Unit

-- All that the client has sent.
abbrev pub HasSent : Client → Type 0
HasSent c = All (IsSent c.pid) c.calls

pub request-IsRequest :
    (size n : ℕ) (body : Body) (c : Client)
    → body_size body ≡ size + n
    → is_request body ≡ true
    → IsRequest c.pid (get_message_size size n) (request c body)
request-IsRequest size n body c e k = record {
  sender = refl;
  size = ap (λ (m : ℕ). m % 2 ^ 32) (omega (arith, e));
  kind = k;
}
