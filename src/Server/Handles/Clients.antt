-- ===== src/Server/Handles/Clients.antt =====
-- The handlers of clients (src/websocket_proxy.cpp).
use websocket_proxy.Base.{
  inl, inr, arith, ℕ, ◌≡◌, refl, Bool, List, [], ◌∷◌, true, nat_eq, Option-case, if-case, ltb,
}
use websocket_proxy.Base.Maps.{Map, find, erase, contains, modify}
use websocket_proxy.Base.Sets.{has, remove, is_empty}
use websocket_proxy.Protocol.{Message, RegisterMessage, sub64, heartbeat_interval}
use websocket_proxy.Server.State.{Server, ClientInfo, now, tick, key_eq, put_socket}
use websocket_proxy.Server.Callbacks.{send_heartbeat}
use websocket_proxy.Server.Clients.{
  get_client, handle_client_registration, close_socket_for, detach_one, detach, close_each,
  forget_client, unregister_found, unregister_client, handle_close, expire_clients,
  check_heartbeats, is_lost,
}
use websocket_proxy.Server.Telling.{
  Tells-as, Tells-quiet, Tells-one, Tells-trans, heartbeat-IsNotice,
}
use websocket_proxy.Server.Core.{SameCore-close_socket}
use websocket_proxy.Server.Handles.{
  Handles, Handles-refl, Handles-trans, Handles-same, Handles-core, Handles-at, Handles-if,
}

pub Handles-get_client : (pid : ℕ) (s : Server) → Handles s (get_client pid s).1
unfolding get_client modify
Handles-get_client pid s =
    if-case (λ (r : Bool × Server). Handles s r.1) (contains pid s.clients) _ _
      (λ _. record {
        timed = inr (inl refl);
        idle = λ h set. rw (h set);
        posted = refl;
        run = refl;
        tells = (Tells-quiet refl refl refl (omega arith));
      })
      (λ _. Handles-refl s)

pub Handles-handle_client_registration :
    (msg : Message) (reg : RegisterMessage) (s : Server)
    → Handles s (handle_client_registration msg reg s)
unfolding handle_client_registration
Handles-handle_client_registration msg reg s = record {
  timed = inl refl;
  idle = λ h set. absurd (set refl);
  posted = refl;
  run = refl;
  tells = (Tells-one refl refl refl (omega arith) tt);
}

pub Handles-close_socket_for : (id pid : ℕ) (s : Server) → Handles s (close_socket_for id pid s)
unfolding close_socket_for
Handles-close_socket_for id pid s = Handles-at (find id s.by_id) _ (Handles-refl s) λ a.
    Handles-at (s.heap a) _ (Handles-refl s) λ w.
      let t = put_socket a (record w { clients = remove pid w.clients }) s in
      let h = Handles-core (SameCore-close_socket a t) in
      Handles-if (is_empty (remove pid w.clients))
        (record {
          timed = h.timed;
          idle = h.idle;
          posted = h.posted;
          run = h.run;
          tells =
              Tells-as (Tells-trans {t = t} (Tells-quiet refl refl refl (omega arith)) h.tells) refl
                refl refl (omega arith);
        })
        (Handles-same {t = t} refl refl refl refl (Tells-quiet refl refl refl (omega arith)))

Handles-detach_one : (pid a : ℕ) (s : Server) → Handles s (detach_one pid a s).1
unfolding detach_one
Handles-detach_one pid a s =
    Option-case (λ (r : Bool × Server). Handles s r.1) (s.heap a) _ _ (λ _. Handles-refl s)
      λ w e.
        if-case (λ (r : Bool × Server). Handles s r.1) (has pid w.clients) _ _
          (λ _. Handles-same refl refl refl refl (Tells-quiet refl refl refl (omega arith)))
          (λ _. Handles-refl s)

Handles-detach : (pid : ℕ) (m : Map ℕ ℕ) (s : Server) → Handles s (detach pid m s).1
unfolding detach
Handles-detach pid [] s = Handles-refl s
Handles-detach pid ((id, a) ∷ m) s =
    Handles-trans (Handles-detach_one pid a s) (Handles-detach pid m (detach_one pid a s).1)

Handles-close_each : (pid : ℕ) (ids : List ℕ) (s : Server) → Handles s (close_each pid ids s)
unfolding close_each
Handles-close_each pid [] s = Handles-refl s
Handles-close_each pid (id ∷ ids) s =
    Handles-trans (Handles-close_socket_for id pid s)
      (Handles-close_each pid ids (close_socket_for id pid s))

is_empty-nil : {A : Type 0} (xs : List A) → is_empty xs ≡ true → xs ≡ []
is_empty-nil [] h = refl
is_empty-nil (x ∷ xs) h = cc

-- The time of shutdown is set when the last client is forgotten.
Handles-forget_client : (pid : ℕ) (s : Server) → Handles s (forget_client pid s)
unfolding forget_client erase
Handles-forget_client pid s =
    if-case (Handles s) (is_empty (erase pid s.clients)) _ _
      (λ gone. record {
        timed = inr (inr (s.reads, omega arith, omega arith, refl));
        idle = λ h set. is_empty-nil _ gone;
        posted = refl;
        run = refl;
        tells = (Tells-quiet refl refl refl (omega arith));
      })
      (λ _. record {
        timed = inr (inl refl);
        idle = λ h set. rw (h set);
        posted = refl;
        run = refl;
        tells = (Tells-quiet refl refl refl (omega arith));
      })

pub Handles-unregister_found : (pid : ℕ) (s : Server) → Handles s (unregister_found pid s)
unfolding unregister_found
Handles-unregister_found pid s =
    Handles-trans (Handles-detach pid s.by_id s)
      (Handles-trans (Handles-close_each pid _ _) (Handles-forget_client pid _))

pub Handles-unregister_client : (pid : ℕ) (s : Server) → Handles s (unregister_client pid s)
unfolding unregister_client
Handles-unregister_client pid s =
    Handles-if (contains pid s.clients) (Handles-unregister_found pid s) (Handles-refl s)

pub Handles-handle_close : (msg : Message) (id : ℕ) (s : Server) → Handles s (handle_close msg id s)
unfolding handle_close
Handles-handle_close msg id s =
    Handles-trans
      (Handles-if (get_client msg.pid s).0
        (Handles-trans (Handles-get_client msg.pid s) (Handles-close_socket_for id msg.pid _))
        (Handles-get_client msg.pid s))
      (Handles-same refl refl refl refl (Tells-one refl refl refl (omega arith) tt))

Handles-expire_clients :
    (time : ℕ) (m : Map ℕ ClientInfo) (s : Server) → Handles s (expire_clients time m s)
unfolding expire_clients
Handles-expire_clients time [] s = Handles-refl s
Handles-expire_clients time ((pid, c) ∷ m) s =
    Handles-trans (Handles-if (is_lost time c) (Handles-unregister_found pid s) (Handles-refl s))
      (Handles-expire_clients time m _)

pub Handles-send_heartbeat : (time : ℕ) (s : Server) → Handles s (send_heartbeat time s).1
unfolding send_heartbeat
Handles-send_heartbeat time s =
    if-case (λ (r : Bool × Server). Handles s r.1)
      (ltb heartbeat_interval (sub64 time s.last_heartbeat_time)) _ _
      (λ _.
        Handles-same refl refl refl refl
          (Tells-one refl refl refl (omega arith) (heartbeat-IsNotice s)))
      (λ _. Handles-refl s)

pub Handles-check_heartbeats : (s : Server) → Handles s (check_heartbeats s).1
unfolding check_heartbeats
Handles-check_heartbeats s =
    if-case (λ (r : Bool × Server). Handles s r.1) (is_empty s.clients) _ _ (λ _. Handles-refl s)
      (λ _.
        Handles-trans (Handles-same refl refl refl refl (Tells-quiet refl refl refl (omega arith)))
          (Handles-trans (Handles-send_heartbeat (now s) (tick s))
            (Handles-expire_clients (now s) s.clients _)))
