-- ===== src/Server/View/Subscriptions.antt =====
-- Subscribing and sending (src/websocket_proxy.cpp) leave the registry as it is.
use websocket_proxy.Base.{
  ℕ, ◌≡◌, refl, some, Text, nat_eq, text_eq, ◌==◌, Option-cases, inl, inr, arith, bit_and, bit_or,
  take,
}
use websocket_proxy.Base.Maps.{find}
use websocket_proxy.Base.Sets.{insert, remove, is_empty}
use websocket_proxy.Protocol.{Message, WsSubscription, WsRequest}
use websocket_proxy.Server.State.{Websocket, Server, Subscription, put_socket}
use websocket_proxy.Server.Sockets.{send_socket}
use websocket_proxy.Server.Clients.{get_client}
use websocket_proxy.Server.Subscriptions.{
  send_for, subscribe_for, unsubscribe_for, socket_of, symbol_of, request_of, put_subscription,
  handle_subscribe, subscribe_first, subscribe_again, handle_unsubscribe, leave_subscription,
  send_ws_request, socket_not_found, sender_not_found,
}
use websocket_proxy.Server.View.{
  name_of, Leads, Leads-refl, Leads-trans, Leads-same, Leads-put_socket, Leads-at, Leads-if,
}
use websocket_proxy.Server.View.Sockets.{Leads-on_ws_error, Leads-send_socket}
use websocket_proxy.Server.View.Clients.{Leads-get_client}

pub socket_of-heap :
    (id : ℕ) (s : Server) (a : ℕ) (w : Websocket)
    → socket_of id s ≡ some (a, w)
    → (find id s.by_id ≡ some a) × (s.heap a ≡ some w)
socket_of-heap id s a w e = elim (Option-cases (find id s.by_id)) [
  | inl f ↦ ground arith
  | inr (b, f) ↦ elim (Option-cases (s.heap b)) [ inl g ↦ ground arith | inr (v, g) ↦ ground arith ]
]

-- A write to an object, and then a request on it.
module _ (a : ℕ) (w w' : Websocket) (s : Server) (e : s.heap a ≡ some w)
    (q : name_of w' ≡ name_of w) where
  Leads-put-send : (bytes : Text) → Leads s (send_socket a bytes (put_socket a w' s))
  Leads-put-send bytes =
      Leads-trans (Leads-put_socket a w w' s e q) (Leads-send_socket a bytes (put_socket a w' s))

module _ (msg : Message) (req : WsSubscription) (a : ℕ) (w : Websocket) (s : Server)
    (e : s.heap a ≡ some w) where
  Leads-subscribe_first : Leads s (subscribe_first msg req a w s)
  unfolding subscribe_first
  Leads-subscribe_first = Leads-same (Leads-put-send a w _ s e refl (request_of req)) refl

  Leads-subscribe_again : (sub : Subscription) → Leads s (subscribe_again msg req a w sub s)
  unfolding subscribe_again
  Leads-subscribe_again sub =
      Leads-same
        (Leads-if (bit_and sub.type req.type == 0)
          (Leads-put-send a w
            (put_subscription (symbol_of req)
              (record { type = bit_or sub.type req.type; clients = insert msg.pid sub.clients }) w)
            s e refl (request_of req))
          (Leads-put_socket a w
            (put_subscription (symbol_of req) (record sub { clients = insert msg.pid sub.clients })
              w)
            s e refl))
        refl

  Leads-leave_subscription :
      (pid : ℕ) (sub : Subscription) → Leads s (leave_subscription pid req a w sub s)
  unfolding leave_subscription
  Leads-leave_subscription pid sub =
      Leads-if (is_empty (remove pid sub.clients)) (Leads-put-send a w _ s e refl (request_of req))
        (Leads-put_socket a w _ s e refl)

pub Leads-handle_subscribe :
    (msg : Message) (req : WsSubscription) (s : Server) → Leads s (handle_subscribe msg req s)
unfolding handle_subscribe subscribe_for
Leads-handle_subscribe msg req s =
    let t = (get_client msg.pid s).1 in
    Leads-trans (Leads-get_client msg.pid s) (
      Leads-if (get_client msg.pid s).0
        (Leads-at (socket_of req.id t) _ (Leads-same (Leads-refl t) refl) λ (aw : ℕ × Websocket) e.
          let there = (socket_of-heap req.id t aw.0 aw.1 e).1 in
          Leads-at (find (symbol_of req) aw.1.subscriptions) _
            (Leads-subscribe_first msg req aw.0 aw.1 t there)
            λ sub _. Leads-subscribe_again msg req aw.0 aw.1 t there sub)
        (Leads-same (Leads-refl t) refl))

pub Leads-handle_unsubscribe :
    (msg : Message) (req : WsSubscription) (s : Server) → Leads s (handle_unsubscribe msg req s)
unfolding handle_unsubscribe unsubscribe_for
Leads-handle_unsubscribe msg req s =
    let t = (get_client msg.pid s).1 in
    Leads-same
      (Leads-trans (Leads-get_client msg.pid s) (
        Leads-if (get_client msg.pid s).0
          (Leads-at (socket_of req.id t) _ (Leads-refl t) λ (aw : ℕ × Websocket) e.
            let there = (socket_of-heap req.id t aw.0 aw.1 e).1 in
            Leads-at (find (symbol_of req) aw.1.subscriptions) _ (Leads-refl t)
              λ sub _. Leads-leave_subscription msg req aw.0 aw.1 t there msg.pid sub)
          (Leads-refl t)))
      refl

pub Leads-send_ws_request :
    (msg : Message) (req : WsRequest) (s : Server) → Leads s (send_ws_request msg req s)
unfolding send_ws_request send_for
Leads-send_ws_request msg req s =
    let t = (get_client msg.pid s).1 in
    Leads-trans (Leads-get_client msg.pid s) (
      Leads-if (get_client msg.pid s).0
        (Leads-at (socket_of req.id t) _
          (Leads-same (Leads-on_ws_error req.id (socket_not_found req.id) t) refl)
          λ (aw : ℕ × Websocket) e.
            Leads-same (Leads-send_socket aw.0 (take req.len req.bytes) t) refl)
        (Leads-same (Leads-on_ws_error req.id (sender_not_found msg.pid) t) refl))
