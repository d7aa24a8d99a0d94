-- ===== src/Exchange/Opening.antt =====
-- A client opens a socket that the server has (include/websocket_proxy/websocket_proxy_client.h,
-- `openWebSocket`; src/websocket_proxy.cpp, `openWs`).
use websocket_proxy.Base.{
  ℕ, zero, suc, if-case, ◌≤◌, ◌<◌, ◌≡◌, ◌≢◌, refl, ap, ◌∙◌, true, false, some, [], ◌∷◌, Text,
  nat_eq, ltb, length, arith, ◌==◌,
}
use websocket_proxy.Base.Maps.{contains}
use websocket_proxy.Protocol.{success, Message, WsOpen, open_ws, c_string}
use websocket_proxy.Server.State.{Websocket, key_eq, Server, respond, publish}
use websocket_proxy.Server.Callbacks.{get_message_size, open_size}
use websocket_proxy.Server.Requests.{returned, is_connecting, live_socket, handle_open}
use websocket_proxy.Server.Sharing.{IsJoined, handle_open-joins}
use websocket_proxy.Client.State.{Client, publish_request, request, client_tick, client_now}
use websocket_proxy.Client.Waiting.{finished}
use websocket_proxy.Client.Connecting.{Setup, Reply, c_str}
use websocket_proxy.Client.Requests.{
  send_open, send_open_message, opened_socket, open_web_socket, url_limit,
}
use websocket_proxy.Client.Answers.{wait-at_once}
use websocket_proxy.Exchange.Requests.{send_open-request_key}

-- What the client reads once a message is answered.
abbrev pub reply_of : Message → WsOpen → Reply WsOpen
reply_of msg answer = record { status = λ _. msg.status; answer = answer }

-- The request, the server's answer to it, and what the client returns.
pub record IsOpened (url key : Text) (a : ℕ) (w : Websocket) (env : Setup) (c : Client) (s : Server)
    : Type 0 where
  pub req : WsOpen
  pub sent :
      (d : Client) × (send_open url key c ≡ finished (true, d))
      × (d.calls
          ≡ publish_request (get_message_size open_size 0) (request c (open_ws req)) ∷ c.calls)
  pub handled :
      (t : Server) × (handle_open (request c (open_ws req)) req s ≡ returned t)
      × IsJoined (request c (open_ws req)) req a w s t
  pub answer : WsOpen
  pub answered :
      (n : ℕ) × (msg published : Message) × (handled.0.effects
        ≡ respond msg ∷ publish n published ∷ s.effects)
      × (msg.body ≡ open_ws answer)
      × ((fuel : ℕ)
          → (e : Client) × (open_web_socket (suc fuel) env (reply_of msg answer) url key c
              ≡ finished ((w.id, is_connecting w.status), e)))

-- The client's state once it has read the answer to a message.
abbrev pub heard : Client → Client
heard d = record (client_tick (client_tick d)) {
  last_server_heartbeat_time = client_now (client_tick d);
}

module _ (url key : Text) (c : Client) (known : c.server_pid ≢ 0)
    (short : length url ≤ url_limit) where
  -- The call goes on with the message, and reads an answer that is there at once.
  open-at_once :
      (fuel : ℕ) (env : Setup) (d : Client) (msg : Message) (answer : WsOpen)
      → send_open url key c ≡ finished (true, d)
      → msg.status ≡ success
      → (e : Client) × (open_web_socket (suc fuel) env (reply_of msg answer) url key c
          ≡ finished ((answer.id, answer.new_connection), e))
  unfolding open_web_socket send_open_message opened_socket
  open-at_once fuel env d msg answer sent ok = (
    heard d,
    rw (within, there, sent, wait-at_once fuel 30000 (λ _. msg.status) d (rw ok refl), ok) refl,
  )
    where
      within : ltb url_limit (length url) ≡ false
      within = ground arith

      there : (c.server_pid == 0) ≡ false
      there = ground arith

length-c_string : (n : ℕ) (t : Text) → length (c_string n t) ≤ length t
unfolding c_string
length-c_string zero t = omega arith
length-c_string (suc n) [] = omega arith
length-c_string (suc n) (b ∷ t) =
    if-case (λ (u : Text). length u ≤ suc (length t)) (b == 0) _ _ (λ _. omega arith)
      (λ _. omega (arith, length-c_string n t))

fits : (url : Text) → length url ≤ url_limit → length (c_str url) < 512
fits url short = omega (arith, length-c_string (length url) url)

-- A connected client that asks for a URL and an api_key that fit, of which the server has a socket that
-- is connected or connecting, sends one message; the server's handler of it adds the client to that
-- socket, and answers; and if the client finds the answer at its first look, it returns the socket's
-- id, and that the connection is new exactly when it is still being made.
pub open_web_socket-joins :
    (url key : Text) (a : ℕ) (w : Websocket) (env : Setup) (c : Client) (s : Server)
    → c.server_pid ≢ 0
    → length url ≤ url_limit
    → length (c_str key) < 512
    → contains c.pid s.clients ≡ true
    → live_socket (record { url = c_str url; api_key = c_str key }) s ≡ some (a, w)
    → IsOpened url key a w env c s
open_web_socket-joins url key a w env c s known short k there live =
    let (d, req, sent, calls, names) = send_open-request_key url key c (fits url short) k in
    let joined =
      handle_open-joins (request c (open_ws req)) req s a w there
        (ap (λ n. live_socket n s) names ∙ live) in
    let (n, published, effects) = joined.2.answer in
    let answer : WsOpen = record req {
      id = w.id;
      client_pid = c.pid;
      new_connection = is_connecting w.status;
    } in
    let msg : Message = record (request c (open_ws req)) {
      status = success;
      body = open_ws answer;
    } in
    record {
      req = req;
      sent = (d, sent, calls);
      handled = joined;
      answer = answer;
      answered = (
        n,
        msg,
        published,
        effects,
        refl,
        λ fuel. open-at_once url key c known short fuel env d msg answer sent refl,
      );
    }
