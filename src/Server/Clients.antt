-- ===== src/Server/Clients.antt =====
-- Registered clients, their heartbeats and the sockets that they share (src/websocket_proxy.cpp).
use websocket_proxy.Base.{
  ℕ, Bool, true, false, none, some, List, [], ◌∷◌, nat_eq, ltb, if◌then◌else◌,
}
use websocket_proxy.Base.Maps.{Map, find, erase, emplace, modify, contains}
use websocket_proxy.Base.Sets.{has, remove, is_empty}
use websocket_proxy.Protocol.{success, RegisterMessage, register, Message, sub64}
use websocket_proxy.Server.State.{
  ClientInfo, Server, key_of, key_eq, respond, emit, post, put_socket, now, tick, heartbeats,
}
use websocket_proxy.Server.Sockets.{with_socket, close_socket}
use websocket_proxy.Server.Callbacks.{send_heartbeat}

-- getClient, with whether it found the client
unfoldable pub get_client : ℕ → Server → Bool × Server
get_client pid s =
    if contains pid s.clients
    then (
      true,
      record (tick s) {
        clients = modify pid (λ c. record c { last_heartbeat_time = now s }) s.clients;
      },
    )
    else (false, s)

abbrev new_client : ClientInfo
new_client = record { pid = 0; last_heartbeat_time = 0 }

-- handleClientHeartbeat
abbrev pub handle_client_heartbeat : Message → Server → Server
handle_client_heartbeat msg s = let (_, t) = get_client msg.pid s in t

-- handleClientRegistration
unfoldable pub handle_client_registration : Message → RegisterMessage → Server → Server
handle_client_registration msg reg s =
    emit
      (respond
        (record msg { status = success; body = register (record reg { server_pid = s.pid }) }))
      (record (tick s) {
        shutdown_time = 0;
        clients =
            modify msg.pid (λ _. record { pid = msg.pid; last_heartbeat_time = now s })
              (emplace msg.pid new_client s.clients);
      })

-- closeWs(id, pid)
unfoldable pub close_socket_for : ℕ → ℕ → Server → Server
close_socket_for id pid s = elim (find id s.by_id) [
  | none ↦ s
  | some a ↦
      with_socket a
        (λ w t.
          let left = remove pid w.clients in
          let t' = put_socket a (record w { clients = left }) t in
          if is_empty left
          then record (close_socket a t') {
            by_key = erase (key_of w) t.by_key;
            by_id = erase id t.by_id;
          }
          else t')
        s
]

-- One round of the loop that takes a client off the sockets, with whether the socket lost its last.
unfoldable pub detach_one : ℕ → ℕ → Server → Bool × Server
detach_one pid a s = elim (s.heap a) [
  | none ↦ (false, s)
  | some w ↦
      let left = remove pid w.clients in
      if has pid w.clients
      then (is_empty left, put_socket a (record w { clients = left }) s)
      else (false, s)
]

-- The loop, with `to_close`.
unfoldable pub detach : ℕ → Map ℕ ℕ → Server → List ℕ × Server
detach pid [] s = ([], s)
detach pid ((id, a) ∷ rest) s =
    let (last, s') = detach_one pid a s in
    let (to_close, t) = detach pid rest s' in (if last then id ∷ to_close else to_close, t)

unfoldable pub close_each : ℕ → List ℕ → Server → Server
close_each pid [] s = s
close_each pid (id ∷ ids) s = close_each pid ids (close_socket_for id pid s)

-- The clients but for one, and the time at which the last one left.
unfoldable pub forget_client : ℕ → Server → Server
forget_client pid s =
    let left = erase pid s.clients in
    if is_empty left
    then record (tick s) { clients = left; shutdown_time = now s }
    else record s { clients = left }

-- unregisterClient of an iterator; the overload of a pid has the same body once it has found it
unfoldable pub unregister_found : ℕ → Server → Server
unregister_found pid s =
    let (to_close, t) = detach pid s.by_id s in forget_client pid (close_each pid to_close t)

-- unregisterClient of a pid
unfoldable pub unregister_client : ℕ → Server → Server
unregister_client pid s = if contains pid s.clients then unregister_found pid s else s

-- closeWs of a message
unfoldable pub handle_close : Message → ℕ → Server → Server
handle_close msg id s =
    let (found, t) = get_client msg.pid s in
    emit (respond (record msg { status = success }))
      (if found then close_socket_for id msg.pid t else t)

-- The milliseconds after which a silent client is dropped.
abbrev pub client_timeout : ℕ
client_timeout = 30000

-- now - last > 30000, over uint64_t
abbrev pub is_lost : ℕ → ClientInfo → Bool
is_lost time c = ltb client_timeout (sub64 time c.last_heartbeat_time)

-- The loop of `checkHeartbeats`: no round changes the entry of another client.
unfoldable pub expire_clients : ℕ → Map ℕ ClientInfo → Server → Server
expire_clients time [] s = s
expire_clients time ((pid, c) ∷ rest) s =
    expire_clients time rest (if is_lost time c then unregister_found pid s else s)

-- checkHeartbeats
unfoldable pub check_heartbeats : Server → Bool × Server
check_heartbeats s =
    if is_empty s.clients
    then (false, s)
    else let (sent, t) = send_heartbeat (now s) (tick s) in
      (sent, expire_clients (now s) s.clients t)

-- startHeartbeat
unfoldable pub start_heartbeat : Server → Server
start_heartbeat s = let (_, t) = check_heartbeats s in if t.run then post heartbeats t else t
