-- ===== src/Server/Handles/Requests.antt =====
-- The handlers of requests, and the callbacks of sockets (src/websocket_proxy.cpp, src/websocket.h).
use websocket_proxy.Base.{
  arith, ℕ, refl, some, List, [], ◌∷◌, Text, nat_eq, text_eq, Option-case, if-case, bit_and, take,
  ◌==◌,
}
use websocket_proxy.Base.Maps.{find}
use websocket_proxy.Base.Sets.{remove, is_empty}
use websocket_proxy.Protocol.{
  Message, Body, register, unregister, open_ws, close_ws, heartbeat, ws_request, ws_data, ws_error,
  subscribe, unsubscribe, log_level, unknown, WsOpen, WsSubscription, WsRequest, c_string,
}
use websocket_proxy.Url.{parse_url}
use websocket_proxy.Server.State.{Websocket, Server, async_read, connected, connecting}
use websocket_proxy.Server.Sockets.{
  OpenResult, opened, resolve_failed, connect_failed, sni_failed, ssl_handshake_failed,
  handshake_failed, send_socket, set_status, name_port,
}
use websocket_proxy.Server.Clients.{get_client}
use websocket_proxy.Server.Requests.{
  open_new_ws, live_socket, request_key, open_for, handle_open, open_begin, open_succeeded,
  opened_request, open_end,
}
use websocket_proxy.Server.Subscriptions.{
  reject, send_for, subscribe_for, unsubscribe_for, socket_of, symbol_of, request_of,
  handle_subscribe, handle_unsubscribe, send_ws_request,
}
use websocket_proxy.Server.Loop.{dispatch, remove_closed, remove_closed_sockets}
use websocket_proxy.Server.View.Requests.{state_of}
use websocket_proxy.Server.Telling.{Tells-quiet, Tells-one, Tells-two, open-IsNotice}
use websocket_proxy.Server.Core.{
  SameCore-on_ws_error, SameCore-send_socket, SameCore-fail, SameCore-set_status,
  SameCore-name_port,
}
use websocket_proxy.Server.Handles.{
  Handles, Handles-refl, Handles-trans, Handles-same, Handles-emit, Handles-respond,
  Handles-put_socket, Handles-core, Handles-at, Handles-if,
}
use websocket_proxy.Server.Handles.Clients.{
  Handles-get_client, Handles-handle_client_registration, Handles-unregister_client,
  Handles-handle_close,
}

Handles-open_new_ws :
    (msg : Message) (req : WsOpen) (s : Server) → Handles s (state_of (open_new_ws msg req s))
unfolding open_new_ws
Handles-open_new_ws msg req s =
    Option-case (λ o. Handles s (state_of o)) (parse_url (c_string 512 req.url)) _ _
      (λ _. Handles-same refl refl refl refl (Tells-quiet refl refl refl (omega arith)))
      (λ at _. Handles-same refl refl refl refl (Tells-one refl refl refl (omega arith) tt))

Handles-handle_open :
    (msg : Message) (req : WsOpen) (s : Server) → Handles s (state_of (handle_open msg req s))
unfolding handle_open open_for
Handles-handle_open msg req s = Handles-trans (Handles-get_client msg.pid s) (
    if-case (λ o. Handles (get_client msg.pid s).1 (state_of o)) (get_client msg.pid s).0 _ _
      (λ _.
        Option-case (λ o. Handles (get_client msg.pid s).1 (state_of o))
          (live_socket (request_key req) (get_client msg.pid s).1) _ _
          (λ _. Handles-open_new_ws msg req _)
          λ (aw : ℕ × Websocket) _.
            Handles-same refl refl refl refl (
              Tells-two refl refl refl (omega arith) tt (open-IsNotice (get_client msg.pid s).1 _)))
      (λ _. Handles-same refl refl refl refl (Tells-one refl refl refl (omega arith) tt)))

-- What goes on after a request on a socket.
Handles-sent : (a : ℕ) (bytes : Text) (s : Server) → Handles s (send_socket a bytes s)
Handles-sent a bytes s = Handles-core (SameCore-send_socket a bytes s)

Handles-handle_subscribe :
    (msg : Message) (req : WsSubscription) (s : Server) → Handles s (handle_subscribe msg req s)
unfolding handle_subscribe subscribe_for
Handles-handle_subscribe msg req s =
    let t = (get_client msg.pid s).1 in
    Handles-trans (Handles-get_client msg.pid s) (
      Handles-if (get_client msg.pid s).0
        (Handles-at (socket_of req.id t) _ (Handles-respond _ _) λ (aw : ℕ × Websocket).
          Handles-at (find (symbol_of req) aw.1.subscriptions) _
            (Handles-trans
              (Handles-trans (Handles-put_socket aw.0 _ t) (Handles-sent aw.0 (request_of req) _))
              (Handles-respond _ _))
            λ sub.
              Handles-trans
                (Handles-if (bit_and sub.type req.type == 0)
                  (Handles-trans (Handles-put_socket aw.0 _ t)
                    (Handles-sent aw.0 (request_of req) _))
                  (Handles-put_socket aw.0 _ t))
                (Handles-respond _ _))
        (Handles-respond _ _))

Handles-handle_unsubscribe :
    (msg : Message) (req : WsSubscription) (s : Server) → Handles s (handle_unsubscribe msg req s)
unfolding handle_unsubscribe unsubscribe_for
Handles-handle_unsubscribe msg req s =
    let t = (get_client msg.pid s).1 in
    Handles-trans
      (Handles-trans (Handles-get_client msg.pid s) (
        Handles-if (get_client msg.pid s).0
          (Handles-at (socket_of req.id t) _ (Handles-refl t) λ (aw : ℕ × Websocket).
            Handles-at (find (symbol_of req) aw.1.subscriptions) _ (Handles-refl t) λ sub.
              Handles-if (is_empty (remove msg.pid sub.clients))
                (Handles-trans (Handles-put_socket aw.0 _ t) (Handles-sent aw.0 (request_of req) _))
                (Handles-put_socket aw.0 _ t))
          (Handles-refl t)))
      (Handles-respond _ _)

Handles-send_ws_request :
    (msg : Message) (req : WsRequest) (s : Server) → Handles s (send_ws_request msg req s)
unfolding send_ws_request send_for
Handles-send_ws_request msg req s =
    let t = (get_client msg.pid s).1 in
    Handles-trans (Handles-get_client msg.pid s) (
      Handles-if (get_client msg.pid s).0
        (Handles-at (socket_of req.id t) _ (rejected _ t) λ (aw : ℕ × Websocket).
          Handles-trans (Handles-sent aw.0 (take req.len req.bytes) t) (Handles-respond _ _))
        (rejected _ t))
  where
    rejected : (err : Text) (t : Server) → Handles t (reject msg req err t)
    rejected err t =
        Handles-trans (Handles-core (SameCore-on_ws_error req.id err t)) (Handles-respond _ _)

-- Every message, whether its handler returns or throws.
pub Handles-dispatch :
    (msg : Message) (b : Body) (s : Server) → Handles s (state_of (dispatch msg b s))
unfolding dispatch
Handles-dispatch msg (register reg) s = Handles-handle_client_registration msg reg s
Handles-dispatch msg unregister s = Handles-unregister_client msg.pid s
Handles-dispatch msg heartbeat s = Handles-get_client msg.pid s
Handles-dispatch msg (open_ws req) s = Handles-handle_open msg req s
Handles-dispatch msg (close_ws req) s = Handles-handle_close msg req.id s
Handles-dispatch msg (ws_request req) s = Handles-send_ws_request msg req s
Handles-dispatch msg (subscribe req) s = Handles-handle_subscribe msg req s
Handles-dispatch msg (unsubscribe req) s = Handles-handle_unsubscribe msg req s
Handles-dispatch msg (log_level level) s = Handles-emit _ s tt
Handles-dispatch msg (ws_data _) s = Handles-refl s
Handles-dispatch msg (ws_error _) s = Handles-refl s
Handles-dispatch msg (unknown _) s = Handles-refl s

pub Handles-remove_closed_sockets :
    (ids : List ℕ) (s : Server) → Handles s (remove_closed_sockets ids s)
unfolding remove_closed_sockets remove_closed
Handles-remove_closed_sockets [] s = Handles-refl s
Handles-remove_closed_sockets (id ∷ ids) s =
    Handles-trans
      (Handles-at (find id s.by_id) _ (Handles-refl s) λ a.
        Handles-at (s.heap a) _ (Handles-refl s)
          λ w. Handles-same refl refl refl refl (Tells-quiet refl refl refl (omega arith)))
      (Handles-remove_closed_sockets ids _)

pub Handles-open_begin : (a : ℕ) (s : Server) → Handles s (open_begin a s)
unfolding open_begin
Handles-open_begin a s = Handles-core (SameCore-set_status connecting a s)

Handles-opened_request :
    (a : ℕ) (msg : Message) (b : Body) (s : Server) → Handles s (opened_request a msg b s)
unfolding open_succeeded
Handles-opened_request a msg (open_ws req) s = Handles-at (s.heap a) _ (Handles-refl s) λ w.
    Handles-same refl refl refl refl (Tells-two refl refl refl (omega arith) tt (open-IsNotice s _))
Handles-opened_request a msg _ s = Handles-refl s

pub Handles-open_end :
    (a : ℕ) (msg : Message) (r : OpenResult) (s : Server) → Handles s (open_end a msg r s)
unfolding open_end
Handles-open_end a msg (opened port) s =
    let named = name_port a port s in
    Handles-trans
      (Handles-trans (Handles-core (SameCore-name_port a port s)) (
        Handles-trans (Handles-core (SameCore-set_status connected a named))
          (Handles-emit (async_read a) (set_status connected a named) tt)))
      (Handles-opened_request a msg msg.body _)
Handles-open_end a msg (resolve_failed ec) s = Handles-core (SameCore-fail a ec (some msg) s)
Handles-open_end a msg (connect_failed ec) s = Handles-core (SameCore-fail a ec (some msg) s)
Handles-open_end a msg (sni_failed ec) s = Handles-core (SameCore-fail a ec (some msg) s)
Handles-open_end a msg (ssl_handshake_failed port ec) s =
    Handles-trans (Handles-core (SameCore-name_port a port s))
      (Handles-core (SameCore-fail a ec (some msg) _))
Handles-open_end a msg (handshake_failed port ec) s =
    Handles-trans (Handles-core (SameCore-name_port a port s))
      (Handles-core (SameCore-fail a ec (some msg) _))
