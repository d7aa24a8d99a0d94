-- ===== src/Server/Subscribing.antt =====
-- Who is subscribed, and which requests go to the server for it (src/websocket_proxy.cpp,
-- `handleSubscribe`).
use websocket_proxy.Base.{
  ℕ, ◌≡◌, refl, Bool, true, Option, none, some, [], ◌∷◌, ◌++◌, nat_eq, text_eq, text_beq_iff, Text,
  ◌==◌, if◌then◌else◌, Option-cases, Bool-cases, inl, inr, arith, bit_and, bit_or,
}
use websocket_proxy.Base.Maps.{Map, find, emplace, modify, contains, find-emplace, find-modify}
use websocket_proxy.Base.Sets.{has, insert}
use websocket_proxy.Protocol.{success, Message, WsSubscription, subscribe}
use websocket_proxy.Server.State.{
  Websocket, Server, Subscription, respond, async_write, put_socket, emit, update,
}
use websocket_proxy.Server.Sockets.{send_socket}
use websocket_proxy.Server.Subscriptions.{
  socket_of, symbol_of, request_of, put_subscription, subscribe_first, subscribe_again,
  handle_subscribe, subscribe_for,
}
use websocket_proxy.Server.Sharing.{seen, get_client-found, has-insert_self}
use websocket_proxy.Server.Delivery.{send_at, update_at, queued}

-- Whether a request has to go to the server: nobody has subscribed to the symbol, or nobody for one
-- of the types.
abbrev pub is_wanted : ℕ → Option Subscription → Bool
is_wanted type none = true
is_wanted type (some sub) = bit_and sub.type type == 0

-- The client is subscribed, and the request has gone out if it is wanted.
pub record IsSubscribed (msg : Message) (req : WsSubscription) (a : ℕ) (w : Websocket)
    (s t : Server) : Type 0 where
  pub member :
      (v : Websocket) × (sub : Subscription) × (t.heap a ≡ some v)
      × (find (symbol_of req) v.subscriptions ≡ some sub)
      × (has msg.pid sub.clients ≡ true)
  pub answer :
      (reply : Message) × (reply.status ≡ success)
      × (t.effects
          ≡ respond reply
            ∷ (if is_wanted req.type (find (symbol_of req) w.subscriptions)
                then async_write a (w.w_buffer ++ request_of req) ∷ s.effects
                else s.effects))

pub find-modify-some :
    (k : Text) (sub new : Subscription) (m : Map Text Subscription)
    → find k m ≡ some sub
    → find k (modify k (λ _. new) m) ≡ some new
find-modify-some k sub new m f = ground (arith, find-modify k k (λ _. new) m, text_beq_iff k k)

find-emplace_self :
    (k : Text) (new : Subscription) (m : Map Text Subscription)
    → find k m ≡ none
    → find k (emplace k new m) ≡ some new
find-emplace_self k new m f = ground (arith, find-emplace k k new m, text_beq_iff k k)

-- A request that is sent on an object that has just been written.
module _ (a : ℕ) (w : Websocket) (bytes : Text) (s : Server) where
  sent :
      send_socket a bytes (put_socket a w s)
      ≡ emit
          (async_write a (w.w_buffer ++ bytes))
          (queued a w (w.w_buffer ++ bytes) (put_socket a w s))
  sent = send_at a w bytes (put_socket a w s) (update_at s.heap a w)

  pub sent-heap :
      (send_socket a bytes (put_socket a w s)).heap a
      ≡ some (record w { w_buffer = w.w_buffer ++ bytes })
  sent-heap =
      rw sent (update_at (update s.heap a w) a (record w { w_buffer = w.w_buffer ++ bytes }))

  pub sent-effects :
      (send_socket a bytes (put_socket a w s)).effects
      ≡ async_write a (w.w_buffer ++ bytes) ∷ s.effects
  sent-effects = rw sent refl

module _ (msg : Message) (req : WsSubscription) (a : ℕ) (w : Websocket) (s : Server) where
  first-IsSubscribed :
      find (symbol_of req) w.subscriptions ≡ none
      → IsSubscribed msg req a w s (subscribe_first msg req a w s)
  unfolding subscribe_first insert
  first-IsSubscribed f =
      let sub : Subscription = record { type = req.type; clients = msg.pid ∷ [] } in
      let w' = record w { subscriptions = emplace (symbol_of req) sub w.subscriptions } in
      record {
        member = (
          record w' { w_buffer = w.w_buffer ++ request_of req },
          sub,
          sent-heap a w' (request_of req) s,
          find-emplace_self (symbol_of req) sub w.subscriptions f,
          has-insert_self msg.pid [],
        );
        answer = (
          record msg { status = success },
          refl,
          rw (f, sent-effects a w' (request_of req) s) refl,
        );
      }

  again-IsSubscribed :
      (sub : Subscription)
      → find (symbol_of req) w.subscriptions ≡ some sub
      → IsSubscribed msg req a w s (subscribe_again msg req a w sub s)
  unfolding subscribe_again
  again-IsSubscribed sub f = elim (Bool-cases (bit_and sub.type req.type == 0)) [
    | inl new_type ↦ rw new_type record {
      member = (
        record (put_subscription (symbol_of req) widened w) {
          w_buffer = w.w_buffer ++ request_of req;
        },
        widened,
        sent-heap a (put_subscription (symbol_of req) widened w) (request_of req) s,
        find-modify-some (symbol_of req) sub widened w.subscriptions f,
        has-insert_self msg.pid sub.clients,
      );
      answer = (
        record msg { status = success; body = subscribe (record req { existing = true }) },
        refl,
        rw
            (
              f,
              new_type,
              sent-effects a (put_subscription (symbol_of req) widened w) (request_of req) s,
            )
            refl,
      );
    }
    | inr known_type ↦ rw known_type record {
      member = (
        put_subscription (symbol_of req) joined w,
        joined,
        update_at s.heap a (put_subscription (symbol_of req) joined w),
        find-modify-some (symbol_of req) sub joined w.subscriptions f,
        has-insert_self msg.pid sub.clients,
      );
      answer = (
        record msg { status = success; body = subscribe (record req { existing = true }) },
        refl,
        rw (f, known_type) refl,
      );
    }
  ]
    where
      joined : Subscription
      joined = record sub { clients = insert msg.pid sub.clients }

      widened : Subscription
      widened = record joined { type = bit_or sub.type req.type }

subscribe_for-IsSubscribed :
    (msg : Message) (req : WsSubscription) (s : Server) (a : ℕ) (w : Websocket)
    → socket_of req.id s ≡ some (a, w)
    → IsSubscribed msg req a w s (subscribe_for msg req s)
unfolding subscribe_for
subscribe_for-IsSubscribed msg req s a w f =
    elim (Option-cases (find (symbol_of req) w.subscriptions)) [
      | inl nobody ↦ rw (f, subscribe_for, nobody) (first-IsSubscribed msg req a w s nobody)
      | inr (sub, there) ↦ rw (f, subscribe_for, there) (again-IsSubscribed msg req a w s sub there)
    ]

-- When a registered client subscribes to a symbol on a socket that the process has, the client is
-- among those of the symbol's subscription, the answer is a success, and the request has gone to the
-- server, after what waits to be written, if nobody has subscribed to the symbol or if the
-- subscription has no bit of the type that is asked for; else nothing has gone out.
pub handle_subscribe-IsSubscribed :
    (msg : Message) (req : WsSubscription) (s : Server) (a : ℕ) (w : Websocket)
    → contains msg.pid s.clients ≡ true
    → socket_of req.id s ≡ some (a, w)
    → IsSubscribed msg req a w (seen msg.pid s) (handle_subscribe msg req s)
unfolding handle_subscribe
handle_subscribe-IsSubscribed msg req s a w c f =
    rw (get_client-found msg.pid s c) (subscribe_for-IsSubscribed msg req (seen msg.pid s) a w f)
