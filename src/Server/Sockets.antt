-- ===== src/Server/Sockets.antt =====
-- The methods of `Websocket` (src/websocket.h). A method of the object at an address that holds none
-- does nothing.
use websocket_proxy.Base.{
  ℕ, Bool, true, false, not, ◌&&◌, Option, none, some, ◌++◌, Text, if◌then◌else◌, length, take,
  drop,
}
use websocket_proxy.Base.Decimal.{to_string}
use websocket_proxy.Protocol.{failed, Message}
use websocket_proxy.Url.{colon}
use websocket_proxy.Server.State.{
  SocketStatus, connecting, connected, disconnecting, disconnected, is_live, Websocket, Server,
  respond, async_read, async_write, async_close, emit, put_socket,
}
use websocket_proxy.Server.Callbacks.{on_ws_error, on_ws_closed, on_ws_data}

-- The error codes that the program tells apart; `message` is what `ec.message()` returns.
pub data ErrorKind : Type 0 where
  closed eof aborted other : ErrorKind

pub record ErrorCode : Type 0 where
  pub kind : ErrorKind
  pub message : Text

abbrev pub is_closed : ErrorKind → Bool
is_closed closed = true
is_closed eof = false
is_closed aborted = false
is_closed other = false

abbrev pub is_other : ErrorKind → Bool
is_other closed = false
is_other eof = false
is_other aborted = false
is_other other = true

abbrev pub is_disconnected : SocketStatus → Bool
is_disconnected connecting = false
is_disconnected connected = false
is_disconnected disconnecting = false
is_disconnected disconnected = true

abbrev pub is_connected : SocketStatus → Bool
is_connected connecting = false
is_connected connected = true
is_connected disconnecting = false
is_connected disconnected = false

abbrev pub with_socket : ℕ → (Websocket → Server → Server) → Server → Server
with_socket a f s = elim (s.heap a) [ none ↦ s | some w ↦ f w s ]

abbrev pub set_status : SocketStatus → ℕ → Server → Server
set_status x a = with_socket a λ w s. put_socket a (record w { status = x }) s

-- Websocket::close
unfoldable pub close_socket : ℕ → Server → Server
close_socket a = with_socket a λ w s.
    if is_live w.status
    then emit (async_close a) (put_socket a (record w { status = disconnecting }) s)
    else s

-- Websocket::send
unfoldable pub send_socket : ℕ → Text → Server → Server
send_socket a bytes = with_socket a λ w s.
    let queued = w.w_buffer ++ bytes in
    emit (async_write a queued) (put_socket a (record w { w_buffer = queued }) s)

-- Websocket::fail, with the message to which `callback(false)` answers
unfoldable pub fail : ℕ → ErrorCode → Option Message → Server → Server
unfolding close_socket on_ws_error
fail a ec reply = with_socket a λ w s. close_socket a (elim reply [
  | none ↦ on_ws_error w.id ec.message s
  | some msg ↦ emit (respond (record msg { status = failed })) (on_ws_error w.id ec.message s)
])

-- The error branch of `on_read` and `on_write`.
unfoldable pub on_error : ℕ → ErrorCode → Server → Server
unfolding fail
on_error a ec =
    with_socket a
      λ w s. if not (is_disconnected w.status) && is_other ec.kind then fail a ec none s else s

-- Websocket::on_write
unfoldable pub on_write : ℕ → Option ErrorCode → ℕ → Server → Server
on_write a none n = with_socket a λ w. put_socket a (record w { w_buffer = drop n w.w_buffer })
on_write a (some ec) n = on_error a ec

-- Websocket::on_read, of a message that the read appended to the buffer
unfoldable pub on_read : ℕ → Option ErrorCode → Text → Server → Server
unfolding on_ws_data
on_read a none bytes = with_socket a λ w s.
    let buffer = w.r_buffer ++ bytes in
    let n = length bytes in
    let s' =
      on_ws_data w.id (take n buffer) 0 (put_socket a (record w { r_buffer = drop n buffer }) s) in
    if is_connected w.status then emit (async_read a) s' else s'
on_read a (some ec) bytes = on_error a ec

abbrev pub close_error : ℕ → Option ErrorCode → Server → Server
close_error a none s = s
close_error a (some ec) s = if is_closed ec.kind then s else fail a ec none s

-- Websocket::on_close
unfoldable pub on_close : ℕ → Option ErrorCode → Server → Server
unfolding on_ws_closed fail
on_close a ec =
    with_socket a λ w s. on_ws_closed w.id (set_status disconnected a (close_error a ec s))

-- How `Websocket::open` ends: the step that failed, with the port of the endpoint once the host name
-- has it.
pub data OpenResult : Type 0 where
  opened : ℕ → OpenResult
  resolve_failed connect_failed sni_failed : ErrorCode → OpenResult
  ssl_handshake_failed handshake_failed : ℕ → ErrorCode → OpenResult

-- host_ += ':' + std::to_string(ep.port())
unfoldable pub name_port : ℕ → ℕ → Server → Server
name_port a port =
    with_socket a λ w. put_socket a (record w { host = w.host ++ (colon ++ to_string port) })
