-- ===== src/Layout.antt =====
-- How many bytes the packed structures of a message take (include/websocket_proxy/types.h): the sum of
-- the widths of their fields, and the bytes behind.
use websocket_proxy.Base.{ℕ, ◌+◌, length}
use websocket_proxy.Protocol.{
  Body, register, unregister, open_ws, close_ws, heartbeat, ws_request, ws_data, ws_error,
  subscribe, unsubscribe, log_level, unknown, Message,
}

-- The bytes that the structure of a body takes, and those behind it.
abbrev pub body_size : Body → ℕ
body_size (register r) = 32 + 8 + 256
body_size unregister = 0
body_size (open_ws o) = 512 + 512 + 8 + 8 + 1 + 256
body_size (close_ws o) = 8
body_size heartbeat = 0
body_size (ws_request r) = 8 + 4 + length r.bytes
body_size (ws_data d) = 8 + 4 + 4 + length d.bytes
body_size (ws_error r) = 8 + 4 + length r.err
body_size (subscribe s) = 256 + 8 + 4 + 1 + 1 + length s.request
body_size (unsubscribe s) = 256 + 8 + 4 + 1 + 1 + length s.request
body_size (log_level n) = 1
body_size (unknown n) = 0

-- The process id, the type and the status, and what is behind them.
abbrev pub wire_size : Message → ℕ
wire_size msg = 8 + 1 + 1 + body_size msg.body
