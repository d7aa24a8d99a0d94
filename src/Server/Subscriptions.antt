-- ===== src/Server/Subscriptions.antt =====
-- Subscriptions and requests on a socket (src/websocket_proxy.cpp).
use websocket_proxy.Base.{
  ℕ, true, Option, none, some, [], ◌∷◌, Text, text_eq, nat_eq, ◌==◌, if◌then◌else◌, take, bit_and,
  bit_or,
}
use websocket_proxy.Base.Maps.{find, erase, emplace, modify}
use websocket_proxy.Base.Sets.{insert, remove, is_empty}
use websocket_proxy.Base.Decimal.{to_string}
use websocket_proxy.Protocol.{
  success, failed, WsSubscription, WsRequest, subscribe, Message, c_string,
}
use websocket_proxy.Server.State.{Websocket, Server, Subscription, respond, emit, put_socket}
use websocket_proxy.Server.Callbacks.{on_ws_error}
use websocket_proxy.Server.Sockets.{send_socket}
use websocket_proxy.Server.Clients.{get_client}

-- The object that `websocketsById_` has for an id.
abbrev pub socket_of : ℕ → Server → Option (ℕ × Websocket)
socket_of id s = elim (find id s.by_id) [
  | none ↦ none
  | some a ↦ elim (s.heap a) [ none ↦ none | some w ↦ some (a, w) ]
]

-- std::string_view(req->symbol, strnlen(req->symbol, sizeof(req->symbol)))
abbrev pub symbol_of : WsSubscription → Text
symbol_of req = c_string 256 req.symbol

abbrev pub request_of : WsSubscription → Text
request_of req = take req.request_len req.request

abbrev pub put_subscription : Text → Subscription → Websocket → Websocket
put_subscription symbol sub w = record w {
  subscriptions = modify symbol (λ _. sub) w.subscriptions;
}

-- A symbol that nobody has subscribed to.
unfoldable pub subscribe_first : Message → WsSubscription → ℕ → Websocket → Server → Server
subscribe_first msg req a w s =
    let sub : Subscription = record { type = req.type; clients = msg.pid ∷ [] } in
    emit (respond (record msg { status = success })) (
      send_socket a (request_of req)
        (put_socket a (record w { subscriptions = emplace (symbol_of req) sub w.subscriptions }) s))

-- A symbol with a subscription: the request goes out only if it asks for a type that is not there.
unfoldable pub subscribe_again :
    Message → WsSubscription → ℕ → Websocket → Subscription → Server → Server
subscribe_again msg req a w sub s =
    let joined = record sub { clients = insert msg.pid sub.clients } in
    let widened = record joined { type = bit_or sub.type req.type } in
    emit
      (respond (record msg { status = success; body = subscribe (record req { existing = true }) }))
      (if bit_and sub.type req.type == 0
        then send_socket a (request_of req)
            (put_socket a (put_subscription (symbol_of req) widened w) s)
        else put_socket a (put_subscription (symbol_of req) joined w) s)

-- The answer to a subscription that fails.
abbrev pub refuse : Message → Server → Server
refuse msg t = emit (respond (record msg { status = failed })) t

-- The branch of `handleSubscribe` that has found the client.
unfoldable pub subscribe_for : Message → WsSubscription → Server → Server
unfolding subscribe_first subscribe_again
subscribe_for msg req t = elim (socket_of req.id t) [
  | none ↦ refuse msg t
  | some (a, w) ↦ elim (find (symbol_of req) w.subscriptions) [
    | none ↦ subscribe_first msg req a w t
    | some sub ↦ subscribe_again msg req a w sub t
  ]
]

-- handleSubscribe
unfoldable pub handle_subscribe : Message → WsSubscription → Server → Server
handle_subscribe msg req s =
    let (found, t) = get_client msg.pid s in if found then subscribe_for msg req t else refuse msg t

-- The branch of `handleUnsubscribe` that finds the subscription.
unfoldable pub leave_subscription :
    ℕ → WsSubscription → ℕ → Websocket → Subscription → Server → Server
leave_subscription pid req a w sub s =
    let left = record sub { clients = remove pid sub.clients } in
    if is_empty left.clients
    then send_socket a (request_of req)
        (put_socket a (record w { subscriptions = erase (symbol_of req) w.subscriptions }) s)
    else put_socket a (put_subscription (symbol_of req) left w) s

-- The branch of `handleUnsubscribe` that has found the client.
unfoldable pub unsubscribe_for : ℕ → WsSubscription → Server → Server
unfolding leave_subscription
unsubscribe_for pid req t = elim (socket_of req.id t) [
  | none ↦ t
  | some (a, w) ↦ elim (find (symbol_of req) w.subscriptions) [
    | none ↦ t
    | some sub ↦ leave_subscription pid req a w sub t
  ]
]

-- handleUnsubscribe
unfoldable pub handle_unsubscribe : Message → WsSubscription → Server → Server
handle_unsubscribe msg req s =
    let (found, t) = get_client msg.pid s in
    emit (respond (record msg { status = success }))
      (if found then unsubscribe_for msg.pid req t else t)

-- "Failed to send message. Websocket not found. id=" and the same of a client
abbrev pub socket_not_found : ℕ → Text
socket_not_found id =
    b'F'
    ∷ b'a'
    ∷ b'i'
    ∷ b'l'
    ∷ b'e'
    ∷ b'd'
    ∷ b' '
    ∷ b't'
    ∷ b'o'
    ∷ b' '
    ∷ b's'
    ∷ b'e'
    ∷ b'n'
    ∷ b'd'
    ∷ b' '
    ∷ b'm'
    ∷ b'e'
    ∷ b's'
    ∷ b's'
    ∷ b'a'
    ∷ b'g'
    ∷ b'e'
    ∷ b'.'
    ∷ b' '
    ∷ b'W'
    ∷ b'e'
    ∷ b'b'
    ∷ b's'
    ∷ b'o'
    ∷ b'c'
    ∷ b'k'
    ∷ b'e'
    ∷ b't'
    ∷ b' '
    ∷ b'n'
    ∷ b'o'
    ∷ b't'
    ∷ b' '
    ∷ b'f'
    ∷ b'o'
    ∷ b'u'
    ∷ b'n'
    ∷ b'd'
    ∷ b'.'
    ∷ b' '
    ∷ b'i'
    ∷ b'd'
    ∷ b'='
    ∷ to_string id

abbrev pub sender_not_found : ℕ → Text
sender_not_found pid =
    b'F'
    ∷ b'a'
    ∷ b'i'
    ∷ b'l'
    ∷ b'e'
    ∷ b'd'
    ∷ b' '
    ∷ b't'
    ∷ b'o'
    ∷ b' '
    ∷ b's'
    ∷ b'e'
    ∷ b'n'
    ∷ b'd'
    ∷ b' '
    ∷ b'm'
    ∷ b'e'
    ∷ b's'
    ∷ b's'
    ∷ b'a'
    ∷ b'g'
    ∷ b'e'
    ∷ b'.'
    ∷ b' '
    ∷ b'C'
    ∷ b'l'
    ∷ b'i'
    ∷ b'e'
    ∷ b'n'
    ∷ b't'
    ∷ b' '
    ∷ b'n'
    ∷ b'o'
    ∷ b't'
    ∷ b' '
    ∷ b'f'
    ∷ b'o'
    ∷ b'u'
    ∷ b'n'
    ∷ b'd'
    ∷ b'.'
    ∷ b' '
    ∷ b'p'
    ∷ b'i'
    ∷ b'd'
    ∷ b'='
    ∷ to_string pid

-- The answer to a request that fails, with what the client is told.
abbrev pub reject : Message → WsRequest → Text → Server → Server
reject msg req err t = emit (respond (record msg { status = failed })) (on_ws_error req.id err t)

-- The branch of `sendWsRequest` that has found the client.
unfoldable pub send_for : Message → WsRequest → Server → Server
send_for msg req t = elim (socket_of req.id t) [
  | none ↦ reject msg req (socket_not_found req.id) t
  | some (a, _) ↦
      emit (respond (record msg { status = success })) (send_socket a (take req.len req.bytes) t)
]

-- sendWsRequest
unfoldable pub send_ws_request : Message → WsRequest → Server → Server
send_ws_request msg req s =
    let (found, t) = get_client msg.pid s in
    if found then send_for msg req t else reject msg req (sender_not_found msg.pid) t
