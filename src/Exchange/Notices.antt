-- ===== src/Exchange/Notices.antt =====
-- What a client makes of the server's messages (src/websocket_proxy.cpp,
-- include/websocket_proxy/websocket_proxy_client.h).
use websocket_proxy.Base.{
  take-length, ℕ, ◌+◌, ◌^◌, ◌<◌, ◌≡◌, ◌≢◌, refl, ap, ◌∙◌, Bool, true, false, not, ◌&&◌, none, some,
  List, [], ◌∷◌, ◌++◌, Text, if-case, nat_eq, ◌==◌, ltb, length, arith,
}
use websocket_proxy.Base.Sets.{has}
use websocket_proxy.Protocol.{Message, Body, ws_data, sub64, heartbeat_interval}
use websocket_proxy.Server.State.{Websocket, Server, connected, publish, async_read}
use websocket_proxy.Server.Callbacks.{reserve_message}
use websocket_proxy.Server.Sockets.{on_read}
use websocket_proxy.Server.Delivery.{on_read-publishes}
use websocket_proxy.Client.State.{
  Client, Call, websocket_data, client_now, client_tick, client_heartbeat, send_request,
}
use websocket_proxy.Client.Worker.{handle_ws_data, receive, work_on, work_round}

-- A client that listens to the server.
pub record IsListening (c : Client) (s : Server) : Type 0 where
  pub server : c.server_pid ≡ s.pid
  pub known : c.server_pid ≢ 0

-- A heartbeat adds a call at most, and leaves the sockets alone.
record Adds (c d : Client) : Type 0 where
  calls : (k : List Call) × (d.calls ≡ k ++ c.calls)
  websockets : d.websockets ≡ c.websockets

Adds-beat : (time : ℕ) (c : Client) → Adds c (client_heartbeat time c).1
unfolding client_heartbeat send_request
Adds-beat time c =
    if-case (λ (r : Bool × Client). Adds c r.1)
      (not (c.server_pid == 0) && ltb heartbeat_interval (sub64 time c.last_heartbeat_time)) _ _
      (λ _. record { calls = (_ ∷ [], refl); websockets = refl })
      (λ _. record { calls = ([], refl); websockets = refl })

-- The state in which the worker hands a message of its server on.
abbrev pub hearing : Client → Client
hearing c = record (client_tick c) { last_server_heartbeat_time = client_now c }

module _ (c : Client) (s : Server) (h : IsListening c s) where
  round-receive :
      (body : Body) → Adds (receive body (hearing c)) (work_round (some (reserve_message s body)) c)
  unfolding work_round work_on
  round-receive body =
      let there : c.server_pid == 0 ≡ false = ground arith in
      let same : c.server_pid == s.pid ≡ true = ground arith in
      rw (there, same) (Adds-beat (client_now c) (receive body (hearing c)))

  -- A message that the server reads on a connected socket whose read buffer is empty, and that fits,
  -- is published, and reaches the user of each client that listens to the server and has the socket,
  -- whole and with the socket's id, when the client's worker reads it.
  pub on_read-delivered :
      (a : ℕ) (w : Websocket) (bytes : Text)
      → s.heap a ≡ some w
      → w.status ≡ connected
      → w.r_buffer ≡ []
      → length bytes + 26 < 2 ^ 32
      → has w.id c.websockets ≡ true
      → (msg : Message) × (k : List Call) × ((on_read a none bytes s).effects
          ≡ async_read a ∷ publish (length bytes + 26) msg ∷ s.effects)
        × ((work_round (some msg) c).calls ≡ k ++ websocket_data w.id bytes 0 ∷ c.calls)
  unfolding receive handle_ws_data
  on_read-delivered a w bytes e n b fits there =
      let body = ws_data (record { id = w.id; len = length bytes; remaining = 0; bytes = bytes }) in
      let r = round-receive body in
      (
        reserve_message s body,
        r.calls.0,
        (on_read-publishes a w bytes s e n b fits).1,
        r.calls.1 ∙ ap (λ l. r.calls.0 ++ l) (rw (there, take-length bytes) refl),
      )
