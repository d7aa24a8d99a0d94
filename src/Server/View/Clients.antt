-- ===== src/Server/View/Clients.antt =====
-- How the handlers of clients (src/websocket_proxy.cpp) move the registry.
use websocket_proxy.Base.{
  ℕ, ◌≡◌, refl, Bool, some, List, [], ◌∷◌, nat_eq, Option-case, if-case, ap, ◌∙◌, ltb,
}
use websocket_proxy.Base.Maps.{Map, find, erase, contains}
use websocket_proxy.Base.Sets.{has, remove, is_empty}
use websocket_proxy.Protocol.{Message, RegisterMessage, sub64, heartbeat_interval}
use websocket_proxy.Registry.{Registry, stay, then_move, drop_socket}
use websocket_proxy.Server.State.{
  Websocket, Server, ClientInfo, put_socket, key_of, key_eq, now, tick,
}
use websocket_proxy.Server.Callbacks.{send_heartbeat}
use websocket_proxy.Server.Sockets.{close_socket}
use websocket_proxy.Server.Clients.{
  get_client, handle_client_registration, close_socket_for, detach_one, detach, close_each,
  forget_client, unregister_found, unregister_client, handle_close, expire_clients,
  check_heartbeats, start_heartbeat, is_lost,
}
use websocket_proxy.Server.View.{
  name_of, names, SameView-put_socket, SameView-close_socket, Leads, Leads-refl, Leads-trans,
  Leads-same, Leads-put_socket, Leads-at, Leads-if,
}

pub Leads-get_client : (pid : ℕ) (s : Server) → Leads s (get_client pid s).1
unfolding get_client
Leads-get_client pid s =
    if-case (λ (r : Bool × Server). Leads s r.1) (contains pid s.clients) _ _
      (λ _. Leads-same (Leads-refl s) refl) (λ _. Leads-refl s)

pub Leads-handle_client_registration :
    (msg : Message) (reg : RegisterMessage) (s : Server)
    → Leads s (handle_client_registration msg reg s)
unfolding handle_client_registration
Leads-handle_client_registration msg reg s = Leads-same (Leads-refl s) refl

-- A registered object whose clients are gone is dropped.
module _ (id a : ℕ) (w w' : Websocket) (s : Server) (f : find id s.by_id ≡ some a)
    (e : s.heap a ≡ some w) (q : name_of w' ≡ name_of w) where
  Leads-drop : Leads s (record (close_socket a (put_socket a w' s)) {
    by_key = erase (key_of w) s.by_key;
    by_id = erase id s.by_id;
  })
  Leads-drop =
      Leads-same {t = record s { by_key = erase (key_of w) s.by_key; by_id = erase id s.by_id }}
        (record { moves = then_move stay (drop_socket id a (name_of w) f (rw (e, names))) })
        (ap
          (λ (r : Registry). record r {
            by_key = erase (key_of w) s.by_key;
            by_id = erase id s.by_id;
          })
          ((SameView-close_socket a (put_socket a w' s)).same
            ∙ (SameView-put_socket a w w' s e q).same))

pub Leads-close_socket_for : (id pid : ℕ) (s : Server) → Leads s (close_socket_for id pid s)
unfolding close_socket_for
Leads-close_socket_for id pid s = Leads-at (find id s.by_id) _ (Leads-refl s) λ a f.
    Leads-at (s.heap a) _ (Leads-refl s) λ w e.
      let w' = record w { clients = remove pid w.clients } in
      Leads-if (is_empty (remove pid w.clients)) (Leads-drop id a w w' s f e refl)
        (Leads-put_socket a w w' s e refl)

Leads-detach_one : (pid a : ℕ) (s : Server) → Leads s (detach_one pid a s).1
unfolding detach_one
Leads-detach_one pid a s =
    Option-case (λ (r : Bool × Server). Leads s r.1) (s.heap a) _ _ (λ _. Leads-refl s)
      λ w e.
        if-case (λ (r : Bool × Server). Leads s r.1) (has pid w.clients) _ _
          (λ _. Leads-put_socket a w (record w { clients = remove pid w.clients }) s e refl)
          (λ _. Leads-refl s)

Leads-detach : (pid : ℕ) (m : Map ℕ ℕ) (s : Server) → Leads s (detach pid m s).1
unfolding detach
Leads-detach pid [] s = Leads-refl s
Leads-detach pid ((id, a) ∷ rest) s =
    Leads-trans (Leads-detach_one pid a s) (Leads-detach pid rest (detach_one pid a s).1)

Leads-close_each : (pid : ℕ) (ids : List ℕ) (s : Server) → Leads s (close_each pid ids s)
unfolding close_each
Leads-close_each pid [] s = Leads-refl s
Leads-close_each pid (id ∷ ids) s =
    Leads-trans (Leads-close_socket_for id pid s)
      (Leads-close_each pid ids (close_socket_for id pid s))

Leads-forget_client : (pid : ℕ) (s : Server) → Leads s (forget_client pid s)
unfolding forget_client
Leads-forget_client pid s =
    Leads-if (is_empty (erase pid s.clients)) (Leads-same (Leads-refl s) refl)
      (Leads-same (Leads-refl s) refl)

pub Leads-unregister_found : (pid : ℕ) (s : Server) → Leads s (unregister_found pid s)
unfolding unregister_found
Leads-unregister_found pid s =
    Leads-trans (Leads-detach pid s.by_id s)
      (Leads-trans (Leads-close_each pid _ _) (Leads-forget_client pid _))

pub Leads-unregister_client : (pid : ℕ) (s : Server) → Leads s (unregister_client pid s)
unfolding unregister_client
Leads-unregister_client pid s =
    Leads-if (contains pid s.clients) (Leads-unregister_found pid s) (Leads-refl s)

pub Leads-handle_close : (msg : Message) (id : ℕ) (s : Server) → Leads s (handle_close msg id s)
unfolding handle_close
Leads-handle_close msg id s =
    Leads-same
      (Leads-if (get_client msg.pid s).0
        (Leads-trans (Leads-get_client msg.pid s) (Leads-close_socket_for id msg.pid _))
        (Leads-get_client msg.pid s))
      refl

Leads-expire_clients :
    (time : ℕ) (m : Map ℕ ClientInfo) (s : Server) → Leads s (expire_clients time m s)
unfolding expire_clients
Leads-expire_clients time [] s = Leads-refl s
Leads-expire_clients time ((pid, c) ∷ rest) s =
    Leads-trans (Leads-if (is_lost time c) (Leads-unregister_found pid s) (Leads-refl s))
      (Leads-expire_clients time rest _)

pub Leads-send_heartbeat : (time : ℕ) (s : Server) → Leads s (send_heartbeat time s).1
unfolding send_heartbeat
Leads-send_heartbeat time s =
    if-case (λ (r : Bool × Server). Leads s r.1)
      (ltb heartbeat_interval (sub64 time s.last_heartbeat_time)) _ _
      (λ _. Leads-same (Leads-refl s) refl) (λ _. Leads-refl s)

Leads-check_heartbeats : (s : Server) → Leads s (check_heartbeats s).1
unfolding check_heartbeats
Leads-check_heartbeats s =
    if-case (λ (r : Bool × Server). Leads s r.1) (is_empty s.clients) _ _ (λ _. Leads-refl s)
      (λ _. Leads-trans (Leads-same (Leads-refl s) refl) (
        Leads-trans (Leads-send_heartbeat (now s) (tick s))
          (Leads-expire_clients (now s) s.clients _)))

pub Leads-start_heartbeat : (s : Server) → Leads s (start_heartbeat s)
unfolding start_heartbeat
Leads-start_heartbeat s =
    Leads-if (check_heartbeats s).1.run (Leads-same (Leads-check_heartbeats s) refl)
      (Leads-check_heartbeats s)
