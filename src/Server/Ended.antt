-- ===== src/Server/Ended.antt =====
-- A connection that the other side ends (src/websocket.h, `on_read`; src/websocket_proxy.cpp, `openWs`).
use websocket_proxy.Base.{nat_eq, ℕ, ◌≡◌, ap, ◌∙◌, true, false, some, Text}
use websocket_proxy.Base.Maps.{contains}
use websocket_proxy.Protocol.{Message, WsOpen}
use websocket_proxy.Server.State.{Websocket, Server}
use websocket_proxy.Server.Sockets.{ErrorCode, is_other, on_read}
use websocket_proxy.Server.Requests.{returned, request_key, live_socket, handle_open}
use websocket_proxy.Server.Delivery.{on_read-closed}
use websocket_proxy.Server.Sharing.{IsJoined, handle_open-joins}

-- After the connection of a socket that is connected or connecting has ended for reading, with the error
-- closed or eof or by being cancelled, a registered client that asks for the same key is joined to that
-- socket: it is answered a success, with the id of the ended one, and no connection is opened and nothing
-- read.
pub handle_open-on_read :
    (a : ℕ) (ec : ErrorCode) (bytes : Text) (msg : Message) (req : WsOpen) (w : Websocket)
    (s : Server)
    → is_other ec.kind ≡ false
    → contains msg.pid s.clients ≡ true
    → live_socket (request_key req) s ≡ some (a, w)
    → (t : Server) × (handle_open msg req (on_read a (some ec) bytes s) ≡ returned t)
      × IsJoined msg req a w s t
handle_open-on_read a ec bytes msg req w s ended there live =
    let (t, e, j) = handle_open-joins msg req s a w there live in
    (t, ap (handle_open msg req) (on_read-closed a ec bytes 0 s ended).0 ∙ e, j)
