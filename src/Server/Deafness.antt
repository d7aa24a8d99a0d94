-- ===== src/Server/Deafness.antt =====
-- How a malformed port ends the reading of messages (src/websocket_proxy.cpp, `openNewWs`,
-- `processClientMessage`).
use websocket_proxy.Base.{
  ℕ, ◌+◌, ◌%◌, ◌^◌, ◌≡◌, refl, sym, subst, Bool, true, false, none, some, List, nat_eq, if-case,
  All, All-Takes,
}
use websocket_proxy.Protocol.{pending, Message, WsOpen, open_ws, c_string}
use websocket_proxy.Url.{parse_url}
use websocket_proxy.Server.State.{
  Server, Task, first_heartbeat, heartbeats, client_message, close_all, stop_later, with_posted,
  with_opening, now, tick,
}
use websocket_proxy.Server.Clients.{get_client, start_heartbeat, check_heartbeats}
use websocket_proxy.Server.Requests.{
  thrown, open_for, handle_open, open_new_ws, live_socket, request_key,
}
use websocket_proxy.Server.Loop.{
  handle_client_message, process_client_message, run_first_heartbeat, run_close_all, shutdown,
}
use websocket_proxy.Server.Steps.{
  Step, first_heartbeat_round, heartbeat_round, client_round, close_round, stop_round, signals,
  open_begins, open_ends, read_ends, write_ends, close_ends, Reach, here, next,
}
use websocket_proxy.Server.Core.{SameCore-on_read, SameCore-on_write, SameCore-on_close}
use websocket_proxy.Server.Handles.{Handles, Handles-core}
use websocket_proxy.Server.Handles.Clients.{
  Handles-check_heartbeats, Handles-send_heartbeat, Handles-get_client,
}
use websocket_proxy.Server.Handles.Requests.{Handles-open_begin, Handles-open_end}
use websocket_proxy.Server.Lifetime.{Handles-close_sockets}

-- A client's request for a socket.
abbrev pub open_request : ℕ → WsOpen → Message
open_request pid req = record { pid = pid; status = pending; body = open_ws req }

open_new_ws-throws :
    (msg : Message) (req : WsOpen) (s : Server)
    → parse_url (c_string 512 req.url) ≡ none
    → open_new_ws msg req s ≡ thrown (record s { websocket_id = (s.websocket_id + 1) % 2 ^ 32 })
unfolding open_new_ws
open_new_ws-throws msg req s u = rw (u, open_new_ws)

open_for-throws :
    (msg : Message) (req : WsOpen) (s : Server)
    → live_socket (request_key req) s ≡ none
    → parse_url (c_string 512 req.url) ≡ none
    → open_for msg req s ≡ thrown (record s { websocket_id = (s.websocket_id + 1) % 2 ^ 32 })
unfolding open_for
open_for-throws msg req s l u = rw (l, open_for) (open_new_ws-throws msg req s u)

module _ (pid : ℕ) (req : WsOpen) (closed : List ℕ) (s : Server) where
  process-throws :
      (get_client pid s).0 ≡ true
      → live_socket (request_key req) (get_client pid s).1 ≡ none
      → parse_url (c_string 512 req.url) ≡ none
      → (process_client_message (some (open_request pid req)) closed s).posted ≡ s.posted
  unfolding process_client_message handle_client_message handle_open
  process-throws f l u =
      rw (f, open_for-throws (open_request pid req) req (get_client pid s).1 l u)
        (Handles-get_client pid s).posted

-- No function that reads the next message is posted.
pub is_reader : Task → Bool
is_reader client_message = true
is_reader first_heartbeat = false
is_reader heartbeats = false
is_reader close_all = false
is_reader stop_later = false

abbrev pub IsDeaf : Server → Type 0
IsDeaf s = All (λ t. is_reader t ≡ false) s.posted

start_heartbeat-IsDeaf : (s : Server) → IsDeaf s → IsDeaf (start_heartbeat s)
unfolding start_heartbeat is_reader
start_heartbeat-IsDeaf s h =
    let kept = subst (All (λ t. is_reader t ≡ false)) (sym (Handles-check_heartbeats s).posted) h in
    if-case IsDeaf (check_heartbeats s).1.run _ _ (λ _. (refl, kept)) (λ _. kept)

Handles-IsDeaf : {s t : Server} → Handles s t → IsDeaf s → IsDeaf t
Handles-IsDeaf h = subst (All (λ t. is_reader t ≡ false)) (sym h.posted)

Step-IsDeaf : {s t : Server} → Step s t → IsDeaf s → IsDeaf t
unfolding run_first_heartbeat run_close_all shutdown is_reader
Step-IsDeaf {s} (first_heartbeat_round ts t) h =
    start_heartbeat-IsDeaf _ (
      Handles-IsDeaf (Handles-send_heartbeat (now s) (tick (with_posted ts s))) (All-Takes _ t h).1)
Step-IsDeaf {s} (heartbeat_round ts t) h =
    start_heartbeat-IsDeaf (with_posted ts s) (All-Takes _ t h).1
Step-IsDeaf {s} (client_round ts read closed t) h = cc ((All-Takes _ t h).0)
Step-IsDeaf {s} (close_round ts t) h = (
  refl,
  Handles-IsDeaf (Handles-close_sockets s.by_id (record (with_posted ts s) { run = false }))
      (All-Takes _ t h).1,
)
Step-IsDeaf (stop_round ts t) h = (All-Takes _ t h).1
Step-IsDeaf signals h = (refl, h)
Step-IsDeaf {s} (open_begins o os _) h = Handles-IsDeaf (Handles-open_begin o.address s) h
Step-IsDeaf {s} (open_ends o os r _) h =
    Handles-IsDeaf (Handles-open_end o.address o.message r (with_opening os s)) h
Step-IsDeaf {s} (read_ends a ec bytes) h =
    Handles-IsDeaf (Handles-core (SameCore-on_read a ec bytes s)) h
Step-IsDeaf {s} (write_ends a ec n) h = Handles-IsDeaf (Handles-core (SameCore-on_write a ec n s)) h
Step-IsDeaf {s} (close_ends a ec) h = Handles-IsDeaf (Handles-core (SameCore-on_close a ec s)) h

Reach-IsDeaf : {P : Server → Type 0} {s t : Server} → IsDeaf s → Reach P s t → IsDeaf t
Reach-IsDeaf h here = h
Reach-IsDeaf h (next r _ st) = Step-IsDeaf st (Reach-IsDeaf h r)

-- When the message that is read is the request of a registered client for a socket that is not open,
-- with a URL for which the constructor throws, and no other reading of messages is posted, then in
-- every state that the process reaches afterwards no function that reads messages is posted.
pub malformed_url_deafens :
    {P : Server → Type 0} (pid : ℕ) (req : WsOpen) (closed : List ℕ) (s : Server) {t : Server}
    → (get_client pid s).0 ≡ true
    → live_socket (request_key req) (get_client pid s).1 ≡ none
    → parse_url (c_string 512 req.url) ≡ none
    → IsDeaf s
    → Reach P (process_client_message (some (open_request pid req)) closed s) t
    → IsDeaf t
malformed_url_deafens pid req closed s f l u h =
    Reach-IsDeaf
      (subst (All (λ x. is_reader x ≡ false)) (sym (process-throws pid req closed s f l u)) h)
