-- ===== src/Server/View/Sockets.antt =====
-- The methods of `Websocket` (src/websocket.h) leave the registry as it is.
use websocket_proxy.Base.{ℕ, refl, not, ◌&&◌, Option, none, some, ◌++◌, Text, length, drop}
use websocket_proxy.Protocol.{Message, failed}
use websocket_proxy.Server.State.{Server, disconnected, emit, respond}
use websocket_proxy.Server.Callbacks.{on_ws_opened, on_ws_closed, on_ws_error, on_ws_data}
use websocket_proxy.Server.Sockets.{
  send_socket, fail, on_error, on_write, on_read, on_close, name_port, ErrorCode, set_status,
  is_disconnected, is_other, is_connected, is_closed, close_error,
}
use websocket_proxy.Server.View.{
  Leads, Leads-refl, Leads-trans, Leads-same, Leads-put_socket, Leads-at, Leads-if,
  Leads-set_status, Leads-close_socket, SameView-name_port,
}

pub Leads-on_ws_opened : (id pid : ℕ) (s : Server) → Leads s (on_ws_opened id pid s)
unfolding on_ws_opened
Leads-on_ws_opened id pid s = Leads-same (Leads-refl s) refl

pub Leads-on_ws_closed : (id : ℕ) (s : Server) → Leads s (on_ws_closed id s)
unfolding on_ws_closed
Leads-on_ws_closed id s = Leads-same (Leads-refl s) refl

pub Leads-on_ws_error : (id : ℕ) (err : Text) (s : Server) → Leads s (on_ws_error id err s)
unfolding on_ws_error
Leads-on_ws_error id err s = Leads-same (Leads-refl s) refl

pub Leads-on_ws_data :
    (id : ℕ) (bytes : Text) (n : ℕ) (s : Server) → Leads s (on_ws_data id bytes n s)
unfolding on_ws_data
Leads-on_ws_data id bytes n s = Leads-same (Leads-refl s) refl

pub Leads-send_socket : (a : ℕ) (bytes : Text) (s : Server) → Leads s (send_socket a bytes s)
unfolding send_socket
Leads-send_socket a bytes s = Leads-at (s.heap a) _ (Leads-refl s) λ w e.
    Leads-same (Leads-put_socket a w (record w { w_buffer = w.w_buffer ++ bytes }) s e refl) refl

pub Leads-name_port : (a port : ℕ) (s : Server) → Leads s (name_port a port s)
Leads-name_port a port s = Leads-same (Leads-refl s) (SameView-name_port a port s).same

pub Leads-fail :
    (a : ℕ) (ec : ErrorCode) (reply : Option Message) (s : Server) → Leads s (fail a ec reply s)
unfolding fail
Leads-fail a ec none s = Leads-at (s.heap a) _ (Leads-refl s) λ w e.
    Leads-trans (Leads-on_ws_error w.id ec.message s)
      (Leads-close_socket a (on_ws_error w.id ec.message s))
Leads-fail a ec (some msg) s = Leads-at (s.heap a) _ (Leads-refl s) λ w e.
    Leads-trans (Leads-same (Leads-on_ws_error w.id ec.message s) refl) (
      Leads-close_socket a
        (emit (respond (record msg { status = failed })) (on_ws_error w.id ec.message s)))

pub Leads-on_error : (a : ℕ) (ec : ErrorCode) (s : Server) → Leads s (on_error a ec s)
unfolding on_error
Leads-on_error a ec s = Leads-at (s.heap a) _ (Leads-refl s) λ w e.
    Leads-if (not (is_disconnected w.status) && is_other ec.kind) (Leads-fail a ec none s)
      (Leads-refl s)

pub Leads-on_write :
    (a : ℕ) (ec : Option ErrorCode) (n : ℕ) (s : Server) → Leads s (on_write a ec n s)
unfolding on_write
Leads-on_write a none n s =
    Leads-at (s.heap a) _ (Leads-refl s) λ w e. Leads-put_socket a w _ s e refl
Leads-on_write a (some ec) n s = Leads-on_error a ec s

pub Leads-on_read :
    (a : ℕ) (ec : Option ErrorCode) (bytes : Text) (s : Server) → Leads s (on_read a ec bytes s)
unfolding on_read
Leads-on_read a none bytes s = Leads-at (s.heap a) _ (Leads-refl s) λ w e.
    let buffer = w.r_buffer ++ bytes in
    let put = Leads-put_socket a w (record w { r_buffer = drop (length bytes) buffer }) s e refl in
    Leads-if (is_connected w.status) (Leads-same put refl) (Leads-same put refl)
Leads-on_read a (some ec) bytes s = Leads-on_error a ec s

Leads-close_error : (a : ℕ) (ec : Option ErrorCode) (s : Server) → Leads s (close_error a ec s)
Leads-close_error a none s = Leads-refl s
Leads-close_error a (some ec) s =
    Leads-if (is_closed ec.kind) (Leads-refl s) (Leads-fail a ec none s)

pub Leads-on_close : (a : ℕ) (ec : Option ErrorCode) (s : Server) → Leads s (on_close a ec s)
unfolding on_close
Leads-on_close a ec s = Leads-at (s.heap a) _ (Leads-refl s) λ w e.
    Leads-trans (Leads-close_error a ec s) (
      Leads-trans (Leads-set_status disconnected a (close_error a ec s))
        (Leads-on_ws_closed w.id (set_status disconnected a (close_error a ec s))))
