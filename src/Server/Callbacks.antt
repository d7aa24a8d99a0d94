-- ===== src/Server/Callbacks.antt =====
-- What the proxy publishes for the clients (src/websocket_proxy.cpp, `sendMessageToClient`,
-- `sendHeartbeat` and the `onWs...` callbacks).
use websocket_proxy.Base.{
  ℕ, ◌+◌, ◌%◌, ◌^◌, Bool, true, false, [], Text, ltb, if◌then◌else◌, length, take,
}
use websocket_proxy.Protocol.{
  pending, WsOpen, Body, open_ws, close_ws, ws_error, ws_data, heartbeat, Message,
  heartbeat_interval, sub64,
}
use websocket_proxy.Server.State.{Server, publish, publish_closed, emit, now, tick}

-- sizeof of the packed structures
abbrev pub message_size : ℕ
message_size = 10

abbrev pub open_size : ℕ
open_size = 512 + 512 + 8 + 8 + 1 + 256

abbrev pub close_size : ℕ
close_size = 8

abbrev pub error_size : ℕ
error_size = 8 + 4

abbrev pub data_size : ℕ
data_size = 8 + 4 + 4

-- get_message_size<T>(data_len), as uint32_t
abbrev pub get_message_size : ℕ → ℕ → ℕ
get_message_size size_of data_len = (message_size + size_of + data_len) % 2 ^ 32

-- `reserveMessage` clears the message and sets the sender.
abbrev pub reserve_message : Server → Body → Message
reserve_message s body = record { pid = s.pid; status = pending; body = body }

-- sendMessageToClient(index, size, now)
unfoldable pub send_message_at : ℕ → Message → ℕ → Server → Server
send_message_at size msg time s = emit (publish size msg) (record s { last_heartbeat_time = time })

-- sendMessageToClient(index, size)
unfoldable pub send_message : ℕ → Message → Server → Server
unfolding send_message_at
send_message size msg s = send_message_at size msg (now s) (tick s)

-- sendHeartbeat(now), with whether it sent one
unfoldable pub send_heartbeat : ℕ → Server → Bool × Server
unfolding send_message_at
send_heartbeat time s =
    if ltb heartbeat_interval (sub64 time s.last_heartbeat_time)
    then (true, send_message_at message_size (reserve_message s heartbeat) time s)
    else (false, s)

unfoldable pub on_ws_opened : ℕ → ℕ → Server → Server
unfolding send_message
on_ws_opened id client_pid s =
    send_message (get_message_size open_size 0) (reserve_message s (open_ws opened)) s
  where
    opened : WsOpen
    opened = record {
      url = [];
      api_key = [];
      client_pid = client_pid;
      id = id;
      new_connection = true;
      err = [];
    }

unfoldable pub on_ws_closed : ℕ → Server → Server
unfolding send_message
on_ws_closed id s = emit (publish_closed id) (
    send_message (get_message_size close_size 0) (reserve_message s (close_ws (record { id = id })))
      s)

unfoldable pub on_ws_error : ℕ → Text → Server → Server
unfolding send_message
on_ws_error id err s =
    let len = length err % 2 ^ 32 in
    send_message (get_message_size error_size len)
      (reserve_message s (ws_error (record { id = id; len = len; err = take len err }))) s

unfoldable pub on_ws_data : ℕ → Text → ℕ → Server → Server
unfolding send_message
on_ws_data id bytes remaining s =
    let len = length bytes % 2 ^ 32 in
    send_message (get_message_size data_size len)
      (reserve_message s
        (ws_data (record { id = id; len = len; remaining = remaining; bytes = take len bytes })))
      s
