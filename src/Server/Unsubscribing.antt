-- ===== src/Server/Unsubscribing.antt =====
-- Who leaves a subscription (src/websocket_proxy.cpp, `handleUnsubscribe`).
use websocket_proxy.Base.{
  ℕ, ◌≡◌, refl, true, false, none, some, ◌∷◌, ◌++◌, nat_eq, text_eq, text_beq_iff, Text,
  if◌then◌else◌, Bool-cases, inl, inr, arith,
}
use websocket_proxy.Base.Maps.{Map, find, erase, contains, find-erase}
use websocket_proxy.Base.Sets.{has, remove, is_empty, has-remove}
use websocket_proxy.Protocol.{success, Message, WsSubscription}
use websocket_proxy.Server.State.{Websocket, Server, Subscription, respond, async_write, emit}
use websocket_proxy.Server.Subscriptions.{
  socket_of, symbol_of, request_of, put_subscription, unsubscribe_for, leave_subscription,
  handle_unsubscribe,
}
use websocket_proxy.Server.Sharing.{seen, get_client-found}
use websocket_proxy.Server.Delivery.{update_at}
use websocket_proxy.Server.Subscribing.{find-modify-some, sent-heap, sent-effects}

-- What a client leaves of a subscription.
abbrev pub left_by : ℕ → Subscription → Subscription
left_by pid sub = record sub { clients = remove pid sub.clients }

-- The client is not subscribed; the last one took the subscription with it, and its request has gone
-- out.
pub record IsUnsubscribed (msg : Message) (req : WsSubscription) (a : ℕ) (w : Websocket)
    (sub : Subscription) (s t : Server) : Type 0 where
  pub subscription :
      (v : Websocket) × (t.heap a ≡ some v)
      × (find (symbol_of req) v.subscriptions
          ≡ (if is_empty (remove msg.pid sub.clients) then none else some (left_by msg.pid sub)))
  pub gone : has msg.pid (remove msg.pid sub.clients) ≡ false
  pub answer :
      t.effects
      ≡ respond (record msg { status = success })
        ∷ (if is_empty (remove msg.pid sub.clients)
            then async_write a (w.w_buffer ++ request_of req) ∷ s.effects
            else s.effects)

find-erase_self : (k : Text) (m : Map Text Subscription) → find k (erase k m) ≡ none
find-erase_self k m = ground (arith, find-erase k k m, text_beq_iff k k)

module _ (msg : Message) (req : WsSubscription) (a : ℕ) (w : Websocket) (sub : Subscription)
    (s : Server) where
  leave-IsUnsubscribed :
      find (symbol_of req) w.subscriptions ≡ some sub
      → IsUnsubscribed msg req a w sub s (
          emit
            (respond (record msg { status = success }))
            (leave_subscription msg.pid req a w sub s))
  unfolding leave_subscription
  leave-IsUnsubscribed f = elim (Bool-cases (is_empty (remove msg.pid sub.clients))) [
    | inl last ↦ rw last record {
      subscription = (
        record without { w_buffer = w.w_buffer ++ request_of req },
        sent-heap a without (request_of req) s,
        rw last (find-erase_self (symbol_of req) w.subscriptions),
      );
      gone = gone;
      answer = rw (last, sent-effects a without (request_of req) s) refl;
    }
    | inr some_left ↦ rw some_left record {
      subscription = (
        put_subscription (symbol_of req) (left_by msg.pid sub) w,
        update_at s.heap a (put_subscription (symbol_of req) (left_by msg.pid sub) w),
        rw some_left (find-modify-some (symbol_of req) sub (left_by msg.pid sub) w.subscriptions f),
      );
      gone = gone;
      answer = rw some_left refl;
    }
  ]
    where
      without : Websocket
      without = record w { subscriptions = erase (symbol_of req) w.subscriptions }

      gone : has msg.pid (remove msg.pid sub.clients) ≡ false
      gone = ground (arith, has-remove msg.pid msg.pid sub.clients)

  unsubscribe_for-leave :
      socket_of req.id s ≡ some (a, w)
      → find (symbol_of req) w.subscriptions ≡ some sub
      → unsubscribe_for msg.pid req s ≡ leave_subscription msg.pid req a w sub s
  unfolding unsubscribe_for
  unsubscribe_for-leave f g = rw (f, unsubscribe_for, g) refl

-- When a registered client unsubscribes from a symbol that somebody has subscribed to, on a socket
-- that the process has, the client is not among those of the subscription any more. If no client is
-- left the subscription is gone and the request has gone to the server, after what waits to be
-- written; else the others stay and nothing has gone out. The answer is a success.
pub handle_unsubscribe-IsUnsubscribed :
    (msg : Message) (req : WsSubscription) (s : Server) (a : ℕ) (w : Websocket) (sub : Subscription)
    → contains msg.pid s.clients ≡ true
    → socket_of req.id s ≡ some (a, w)
    → find (symbol_of req) w.subscriptions ≡ some sub
    → IsUnsubscribed msg req a w sub (seen msg.pid s) (handle_unsubscribe msg req s)
unfolding handle_unsubscribe
handle_unsubscribe-IsUnsubscribed msg req s a w sub c f g =
    rw (get_client-found msg.pid s c, unsubscribe_for-leave msg req a w sub (seen msg.pid s) f g)
      (leave-IsUnsubscribed msg req a w sub (seen msg.pid s) g)
