-- ===== src/Exchange/Requests.antt =====
-- What the server makes of a client's requests (include/websocket_proxy/websocket_proxy_client.h,
-- src/websocket_proxy.cpp).
use websocket_proxy.Base.{
  take-length, ℕ, zero, suc, ◌≤◌, ◌<◌, ◌≡◌, refl, ap, ◌∙◌, true, false, some, [], ◌∷◌, ◌++◌, Text,
  nat_eq, ◌==◌, ltb, length, take, arith, Bool-cases, inl, inr,
}
use websocket_proxy.Base.Maps.{contains}
use websocket_proxy.Protocol.{
  NoNul, success, Message, WsOpen, WsRequest, open_ws, ws_request, subscribe, c_string,
}
use websocket_proxy.Server.State.{Websocket, Server, respond, async_write}
use websocket_proxy.Server.Callbacks.{get_message_size, open_size}
use websocket_proxy.Server.Requests.{returned, request_key}
use websocket_proxy.Server.Subscriptions.{
  socket_of, symbol_of, request_of, send_for, send_ws_request, handle_subscribe,
}
use websocket_proxy.Server.Loop.{dispatch}
use websocket_proxy.Server.Sharing.{seen, get_client-found}
use websocket_proxy.Server.Delivery.{send_at, socket_at}
use websocket_proxy.Server.Subscribing.{IsSubscribed, handle_subscribe-IsSubscribed}
use websocket_proxy.Client.State.{Client, publish_request, request, send_request}
use websocket_proxy.Client.Waiting.{finished}
use websocket_proxy.Client.Connecting.{c_str}
use websocket_proxy.Client.Requests.{send_open, send_bytes, subscription, request_size}

c_string-NoNul : (n : ℕ) (t : Text) → NoNul (c_string n t)
unfolding c_string
c_string-NoNul zero t = tt
c_string-NoNul (suc n) [] = tt
c_string-NoNul (suc n) (b ∷ t) = elim (Bool-cases (b == 0)) [
  | inl nul ↦ rw nul tt
  | inr other ↦ rw other (other, c_string-NoNul n t)
]

c_string-whole : (n : ℕ) (t : Text) → NoNul t → length t ≤ n → c_string n t ≡ t
unfolding c_string
c_string-whole zero [] h l = refl
c_string-whole zero (b ∷ t) h l = absurd (omega arith)
c_string-whole (suc n) [] h l = refl
c_string-whole (suc n) (b ∷ t) (h, k) l =
    rw h (ap (λ (u : Text). b ∷ u) (c_string-whole n t k (omega arith)))

-- What is written for a URL and an api_key that fit, in the message that opens a socket, is read as
-- the key of these two, up to their first NUL.
pub send_open-request_key :
    (url key : Text) (c : Client)
    → length (c_str url) < 512
    → length (c_str key) < 512
    → (d : Client) × (req : WsOpen) × (send_open url key c ≡ finished (true, d))
      × (d.calls
          ≡ publish_request (get_message_size open_size 0) (request c (open_ws req)) ∷ c.calls)
      × (request_key req ≡ record { url = c_str url; api_key = c_str key })
unfolding send_open send_request
send_open-request_key url key c u k =
    let url_fits : ltb (length (c_str url)) 512 ≡ true = ground arith in
    let key_fits : ltb (length (c_str key)) 512 ≡ true = ground arith in
    let req : WsOpen = record {
      url = c_str url;
      api_key = c_str key;
      client_pid = 0;
      id = 0;
      new_connection = false;
      err = [];
    } in
    (
      send_request (get_message_size open_size 0) (request c (open_ws req)) c,
      req,
      rw (url_fits, key_fits) refl,
      refl,
      λ i. record {
        url = c_string-whole 512 (c_str url) (c_string-NoNul (length url) url) (omega arith) i;
        api_key = c_string-whole 512 (c_str key) (c_string-NoNul (length key) key) (omega arith) i;
      },
    )

-- When a client that is registered subscribes, on a socket that the server has, to a symbol of at
-- most 256 bytes without a NUL, the server reads the symbol and the request as they were given, and
-- the client is subscribed.
pub subscription-IsSubscribed :
    (id : ℕ) (symbol bytes : Text) (type : ℕ) (c : Client) (s : Server) (a : ℕ) (w : Websocket)
    → NoNul symbol
    → length symbol ≤ 256
    → contains c.pid s.clients ≡ true
    → socket_of id s ≡ some (a, w)
    → (symbol_of (subscription id symbol bytes type) ≡ symbol)
      × (request_of (subscription id symbol bytes type) ≡ bytes)
      × IsSubscribed
          (request c (subscribe (subscription id symbol bytes type)))
          (subscription id symbol bytes type)
          a
          w
          (seen c.pid s)
          (handle_subscribe
            (request c (subscribe (subscription id symbol bytes type)))
            (subscription id symbol bytes type)
            s)
subscription-IsSubscribed id symbol bytes type c s a w h l there f = (
  c_string-whole 256 symbol h l,
  take-length bytes,
  handle_subscribe-IsSubscribed (request c (subscribe (subscription id symbol bytes type)))
      (subscription id symbol bytes type) s a w there f,
)

-- What the branch of `sendWsRequest` that finds the client does with the socket.
send_for-found :
    (msg : Message) (req : WsRequest) (s : Server) (a : ℕ) (w : Websocket)
    → socket_of req.id s ≡ some (a, w)
    → s.heap a ≡ some w
    → (send_for msg req s).effects
      ≡ respond (record msg { status = success })
        ∷ async_write a (w.w_buffer ++ take req.len req.bytes)
        ∷ s.effects
unfolding send_for
send_for-found msg req s a w f e = rw (f, send_for, send_at a w (take req.len req.bytes) s e) refl

-- What a registered client sends on a socket that the server has is written to the socket by the
-- server's handler of the message, behind what waits to be written there, and is answered with a
-- success.
pub send_bytes-written :
    (id : ℕ) (bytes : Text) (c : Client) (s : Server) (a : ℕ) (w : Websocket)
    → contains c.pid s.clients ≡ true
    → socket_of id s ≡ some (a, w)
    → (size : ℕ) × (msg reply : Message) × (t : Server) × ((send_bytes id bytes c).calls
        ≡ publish_request size msg ∷ c.calls)
      × (dispatch msg msg.body s ≡ returned t)
      × (t.effects ≡ respond reply ∷ async_write a (w.w_buffer ++ bytes) ∷ s.effects)
      × (reply.status ≡ success)
unfolding send_bytes send_request dispatch send_ws_request
send_bytes-written id bytes c s a w there f =
    let req : WsRequest = record { id = id; len = length bytes; bytes = bytes } in
    let msg = request c (ws_request req) in
    (
      get_message_size request_size (length bytes),
      msg,
      record msg { status = success },
      send_for msg req (seen c.pid s),
      refl,
      rw (get_client-found c.pid s there) refl,
      send_for-found msg req (seen c.pid s) a w f (socket_at id s a w f)
          ∙ rw (take-length bytes) refl,
      refl,
    )
