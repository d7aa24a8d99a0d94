-- ===== src/Server/Sharing.antt =====
-- Who shares a connection (src/websocket_proxy.cpp, `openWs` and `openNewWs`).
use websocket_proxy.Base.{
  ℕ, suc, ◌≡◌, ◌≢◌, refl, ap, ◌∙◌, true, none, some, List, [], ◌∷◌, nat_eq, arith,
}
use websocket_proxy.Base.Maps.{find, contains, modify, contains-modify}
use websocket_proxy.Base.Sets.{insert, has, has-insert}
use websocket_proxy.Protocol.{success, Message, WsOpen, open_ws, c_string}
use websocket_proxy.Url.{parse_url, Address}
use websocket_proxy.Server.State.{
  Websocket, WebsocketKey, Server, key_eq, respond, spawn, publish, now, tick, socket_id,
}
use websocket_proxy.Server.Clients.{get_client}
use websocket_proxy.Server.Requests.{
  returned, is_connecting, request_key, live_socket, join_socket, new_websocket, next_count,
  start_open, open_new_ws, open_for, handle_open,
}

-- The client has joined the socket: the answer has the socket's id, the client is among the socket's,
-- no object is made and nothing is spawned.
pub record IsJoined (msg : Message) (req : WsOpen) (a : ℕ) (w : Websocket) (s t : Server)
    : Type 0 where
  pub member :
      (v : Websocket) × (t.heap a ≡ some v) × (has msg.pid v.clients ≡ true) × (v.id ≡ w.id)
  pub others : (b : ℕ) → b ≢ a → t.heap b ≡ s.heap b
  pub allocated : t.allocated ≡ s.allocated
  pub opening : t.opening ≡ s.opening
  pub answer :
      (n : ℕ) × (published : Message) × (t.effects
        ≡ respond (record msg {
          status = success;
          body = open_ws (record req {
            id = w.id;
            client_pid = msg.pid;
            new_connection = is_connecting w.status;
          });
        })
          ∷ publish n published
          ∷ s.effects)

pub has-insert_self : (a : ℕ) (xs : List ℕ) → has a (insert a xs) ≡ true
has-insert_self a xs = ground (arith, has-insert a a xs)

join-IsJoined :
    (msg : Message) (req : WsOpen) (a : ℕ) (w : Websocket) (s : Server)
    → IsJoined msg req a w s (join_socket msg req a w s)
unfolding join_socket
join-IsJoined msg req a w s = record {
  member = (
    record w { clients = insert msg.pid w.clients },
    ground arith,
    has-insert_self msg.pid w.clients,
    refl,
  );
  others = λ b h. ground arith;
  allocated = refl;
  opening = refl;
  answer = (_, _, refl);
}

-- What `getClient` leaves of the state when it finds the client.
abbrev pub seen : ℕ → Server → Server
seen pid s = record (tick s) {
  clients = modify pid (λ c. record c { last_heartbeat_time = now s }) s.clients;
}

pub get_client-found :
    (pid : ℕ) (s : Server) → contains pid s.clients ≡ true → get_client pid s ≡ (true, seen pid s)
unfolding get_client
get_client-found pid s f = rw f

open_for-join :
    (msg : Message) (req : WsOpen) (s : Server) (a : ℕ) (w : Websocket)
    → live_socket (request_key req) s ≡ some (a, w)
    → open_for msg req s ≡ returned (join_socket msg req a w s)
unfolding open_for
open_for-join msg req s a w l = rw (l, open_for)

open_for-new :
    (msg : Message) (req : WsOpen) (s : Server)
    → live_socket (request_key req) s ≡ none
    → open_for msg req s ≡ open_new_ws msg req s
unfolding open_for
open_for-new msg req s l = rw (l, open_for)

-- When a registered client asks for a socket whose key leads to an object that is connected or
-- connecting, the handler returns, the client is among the object's, the answer is a success with the
-- object's id, and no object and no opening is made.
pub handle_open-joins :
    (msg : Message) (req : WsOpen) (s : Server) (a : ℕ) (w : Websocket)
    → contains msg.pid s.clients ≡ true
    → live_socket (request_key req) s ≡ some (a, w)
    → (t : Server) × (handle_open msg req s ≡ returned t) × IsJoined msg req a w s t
unfolding handle_open
handle_open-joins msg req s a w f l =
    let j = join-IsJoined msg req a w (seen msg.pid s) in
    (
      join_socket msg req a w (seen msg.pid s),
      rw (get_client-found msg.pid s f, open_for-join msg req (seen msg.pid s) a w l),
      record {
        member = j.member;
        others = j.others;
        allocated = j.allocated;
        opening = j.opening;
        answer = j.answer;
      },
    )

-- A new object, with an opening of its own.
pub record IsNew (msg : Message) (req : WsOpen) (s t : Server) : Type 0 where
  pub made :
      (w : Websocket) × (t.heap s.allocated ≡ some w)
      × (w.url ≡ (request_key req).url)
      × (w.api_key ≡ (request_key req).api_key)
      × (w.clients ≡ [])
  pub opening :
      t.opening
      ≡ record {
        address = s.allocated;
        message = record msg { body = open_ws (record req { new_connection = true }) };
      }
        ∷ s.opening
  pub allocated : t.allocated ≡ suc s.allocated
  pub effects : t.effects ≡ spawn s.allocated ∷ s.effects
  pub by_key : t.by_key ≡ s.by_key
  pub by_id : t.by_id ≡ s.by_id
  pub kept : t.clients ≡ s.clients

open_new_ws-IsNew :
    (msg : Message) (req : WsOpen) (s : Server) (at : Address)
    → parse_url (c_string 512 req.url) ≡ some at
    → (t : Server) × (open_new_ws msg req s ≡ returned t) × IsNew msg req s t
unfolding open_new_ws
open_new_ws-IsNew msg req s at u = (
  start_open msg req at s,
  rw (u, open_new_ws),
  record {
    made = (new_websocket req at (socket_id s.pid (next_count s)), ground arith, refl, refl, refl);
    opening = refl;
    allocated = refl;
    effects = refl;
    by_key = refl;
    by_id = refl;
    kept = refl;
  },
)

handle_open-IsNew :
    (msg : Message) (req : WsOpen) (s : Server) (at : Address)
    → contains msg.pid s.clients ≡ true
    → live_socket (request_key req) s ≡ none
    → parse_url (c_string 512 req.url) ≡ some at
    → (t : Server) × (handle_open msg req s ≡ returned t) × IsNew msg req (seen msg.pid s) t
unfolding handle_open
handle_open-IsNew msg req s at f l u =
    let (t, e, n) = open_new_ws-IsNew msg req (seen msg.pid s) at u in
    (t, rw (get_client-found msg.pid s f, open_for-new msg req (seen msg.pid s) l) e, n)

live_socket-absent :
    (key : WebsocketKey) (s : Server) → find key s.by_key ≡ none → live_socket key s ≡ none
live_socket-absent key s k = rw (k, live_socket)

-- When two registered clients ask for the same socket one after the other, and its key leads nowhere
-- and its URL parses, both handlers return and two coroutines are spawned, for two objects.
pub concurrent_opens_duplicate :
    (msg msg' : Message) (req req' : WsOpen) (s : Server) (at : Address)
    → contains msg.pid s.clients ≡ true
    → contains msg'.pid s.clients ≡ true
    → find (request_key req) s.by_key ≡ none
    → request_key req' ≡ request_key req
    → parse_url (c_string 512 req.url) ≡ some at
    → (t u : Server) × (handle_open msg req s ≡ returned t)
      × (handle_open msg' req' t ≡ returned u)
      × (u.effects ≡ spawn (suc s.allocated) ∷ spawn s.allocated ∷ s.effects)
concurrent_opens_duplicate msg msg' req req' s at f f' k q u =
    let (t, e, n) = handle_open-IsNew msg req s at f (live_socket-absent (request_key req) s k) u in
    let l' : live_socket (request_key req') t ≡ none =
      live_socket-absent (request_key req') t (rw (q, n.by_key) k) in
    let f'' : contains msg'.pid t.clients ≡ true = rw n.kept (
      contains-modify msg.pid msg'.pid (λ c. record c { last_heartbeat_time = now s }) s.clients
      ∙ f') in
    let u' : parse_url (c_string 512 req'.url) ≡ some at =
      ap (λ (x : WebsocketKey). parse_url x.url) q ∙ u in
    let (v, e', n') = handle_open-IsNew msg' req' t at f'' l' u' in
    (t, v, e, e', rw (n'.effects, n.effects, n.allocated))
