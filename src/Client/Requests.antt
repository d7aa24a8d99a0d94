-- ===== src/Client/Requests.antt =====
-- The calls of a client (include/websocket_proxy/websocket_proxy_client.h).
use websocket_proxy.Base.{
  ℕ, suc, ◌+◌, Bool, true, false, [], Text, ltb, leb, ◌==◌, if◌then◌else◌, length,
}
use websocket_proxy.Protocol.{
  Status, WsOpen, WsSubscription, open_ws, close_ws, subscribe, unsubscribe, ws_request, log_level,
}
use websocket_proxy.Server.Callbacks.{get_message_size, open_size, close_size}
use websocket_proxy.Client.State.{
  Client, client_now, client_tick, request, send_request, unregister_from, is_failed,
}
use websocket_proxy.Client.Waiting.{Run, finished, aborted, ◌>>=◌, wait_for_response}
use websocket_proxy.Client.Connecting.{Reply, Setup, strcpy_s, connect}

-- The limit on a URL's length.
abbrev pub url_limit : ℕ
url_limit = 255

-- The part of `sendOpenMessage` that has a connection.
unfoldable pub send_open : Text → Text → Client → Run (Bool × Client)
send_open url api_key c = strcpy_s 512 url >>= λ u. strcpy_s 512 api_key >>= λ k. finished (
  true,
  send_request (get_message_size open_size 0)
      (request c (
        open_ws (record {
          url = u;
          api_key = k;
          client_pid = 0;
          id = 0;
          new_connection = false;
          err = [];
        })))
      c,
)

-- sendOpenMessage, with whether it sent the message
unfoldable pub send_open_message : ℕ → Setup → Text → Text → Client → Run (Bool × Client)
send_open_message fuel env url api_key c =
    if ltb url_limit (length url)
    then finished (false, c)
    else if c.server_pid == 0
    then (connect fuel env c >>= λ (connected, d).
        if connected then send_open url api_key d else finished (false, d))
    else send_open url api_key c

-- The end of `openWebSocket`, once the server has answered: the id, and whether it is new.
unfoldable pub opened_socket : Reply WsOpen → ℕ → Client → (ℕ × Bool) × Client
opened_socket reply k c =
    let d = record (client_tick c) { last_server_heartbeat_time = client_now c } in
    if is_failed (reply.status (suc k))
    then ((0, false), d)
    else ((reply.answer.id, reply.answer.new_connection), d)

-- openWebSocket
unfoldable pub open_web_socket :
    ℕ → Setup → Reply WsOpen → Text → Text → Client → Run ((ℕ × Bool) × Client)
open_web_socket fuel env reply url api_key c =
    send_open_message fuel env url api_key c >>= λ (sent, d).
    if sent
    then (wait_for_response fuel 30000 reply.status d >>= λ (answered, k, e).
        finished (if answered then opened_socket reply k e else ((0, false), e)))
    else finished ((0, false), d)

-- openWebSocketAsync
unfoldable pub open_web_socket_async : ℕ → Setup → Text → Text → Client → Run (Bool × Client)
open_web_socket_async = send_open_message

-- The default timeout of `waitForResponse`.
abbrev pub response_timeout : ℕ
response_timeout = 10000

-- closeWebSocket; `status` are the loads of the message's status
unfoldable pub close_web_socket : ℕ → (ℕ → Status) → ℕ → Client → Run (Bool × Client)
close_web_socket fuel status id c =
    let d =
      send_request (get_message_size close_size 0)
        (request c (close_ws (record { id = if id == 0 then c.id else id }))) c in
    wait_for_response fuel response_timeout status d >>= λ (answered, k, e).
    finished (if answered then (true, unregister_from e) else (false, e))

abbrev pub subscription_size : ℕ
subscription_size = 256 + 8 + 4 + 1 + 1

-- memcpy of the symbol into `symbol[256]`; a longer one runs over the fields behind it, which the
-- language leaves undefined.
abbrev pub copy_symbol : Text → Run Text
copy_symbol symbol = if leb (length symbol) 256 then finished symbol else aborted

-- What `subscribe` and `unsubscribe` write into their messages.
abbrev pub subscription : ℕ → Text → Text → ℕ → WsSubscription
subscription id symbol bytes type = record {
  symbol = symbol;
  id = id;
  request_len = length bytes;
  existing = false;
  type = type;
  request = bytes;
}

-- subscribe. It leaves its argument `existing` alone.
unfoldable pub subscribe_to : ℕ → (ℕ → Status) → ℕ → Text → Text → ℕ → Client → Run (Bool × Client)
subscribe_to fuel status id symbol bytes type c = copy_symbol symbol >>= λ s.
    let d =
      send_request (get_message_size subscription_size (length bytes))
        (request c (subscribe (subscription id s bytes type))) c in
    wait_for_response fuel response_timeout status d >>= λ (answered, k, e). finished (answered, e)

-- unsubscribe
unfoldable pub unsubscribe_from : ℕ → Text → Text → Client → Run (Bool × Client)
unsubscribe_from id symbol bytes c = copy_symbol symbol >>= λ s. finished (
  true,
  send_request (get_message_size subscription_size (length bytes))
      (request c (unsubscribe (subscription id s bytes 0))) c,
)

abbrev pub log_level_size : ℕ
log_level_size = 1

-- setLogLevel
unfoldable pub set_log_level : ℕ → Client → Bool × Client
set_log_level level c =
    (true, send_request (get_message_size log_level_size 0) (request c (log_level level)) c)

abbrev pub request_size : ℕ
request_size = 8 + 4

-- send
unfoldable pub send_bytes : ℕ → Text → Client → Client
send_bytes id bytes c =
    send_request (get_message_size request_size (length bytes))
      (request c (ws_request (record { id = id; len = length bytes; bytes = bytes }))) c

-- The destructor, up to the end of the worker thread.
unfoldable pub destroy : Client → Client
destroy c = record (if c.server_pid == 0 then c else unregister_from c) { run = false }
