-- ===== src/Server/Steps.antt =====
-- The process as a transition system: what the event loop of `WebsocketProxy::run`
-- (src/websocket_proxy.cpp) may do next. Any posted function may run, any opening may go on, and any
-- operation on a socket may end, in any order.
use websocket_proxy.Base.{ℕ, true, Option, none, List, [], ◌∷◌, Text, nat_eq, Takes}
use websocket_proxy.Protocol.{Message}
use websocket_proxy.Server.State.{
  Server, Task, first_heartbeat, heartbeats, client_message, close_all, stop_later, start_timer,
  emit, Opening, with_posted, with_opening,
}
use websocket_proxy.Server.Sockets.{ErrorCode, on_read, on_write, on_close, OpenResult}
use websocket_proxy.Server.Clients.{start_heartbeat}
use websocket_proxy.Server.Requests.{open_begin, open_end}
use websocket_proxy.Server.Loop.{
  process_client_message, shutdown, run_close_all, run_first_heartbeat,
}

-- The process when `run` enters its loop. `clock` is what the system clock will show.
unfoldable pub init : ℕ → (ℕ → ℕ) → Server
init pid clock = record {
  pid = pid;
  clock = clock;
  reads = 0;
  run = true;
  last_heartbeat_time = 0;
  shutdown_time = 0;
  clients = [];
  by_id = [];
  by_key = [];
  heap = λ _. none;
  allocated = 0;
  websocket_id = 0;
  opening = [];
  posted = client_message ∷ first_heartbeat ∷ [];
  effects = [];
}

pub data Step (s : Server) : Server → Type 0 where
  first_heartbeat_round :
      (ts : List Task)
      → Takes first_heartbeat s.posted ts
      → Step s (run_first_heartbeat (with_posted ts s))
  heartbeat_round :
      (ts : List Task) → Takes heartbeats s.posted ts → Step s (start_heartbeat (with_posted ts s))
  client_round :
      (ts : List Task) (read : Option Message) (closed : List ℕ)
      → Takes client_message s.posted ts
      → Step s (process_client_message read closed (with_posted ts s))
  close_round :
      (ts : List Task) → Takes close_all s.posted ts → Step s (run_close_all (with_posted ts s))
  stop_round :
      (ts : List Task) → Takes stop_later s.posted ts → Step s (emit start_timer (with_posted ts s))
  signals : Step s (shutdown s)
  open_begins :
      (o : Opening) (os : List Opening) → Takes o s.opening os → Step s (open_begin o.address s)
  open_ends :
      (o : Opening) (os : List Opening) (r : OpenResult)
      → Takes o s.opening os
      → Step s (open_end o.address o.message r (with_opening os s))
  read_ends : (a : ℕ) (ec : Option ErrorCode) (bytes : Text) → Step s (on_read a ec bytes s)
  write_ends : (a : ℕ) (ec : Option ErrorCode) (n : ℕ) → Step s (on_write a ec n s)
  close_ends : (a : ℕ) (ec : Option ErrorCode) → Step s (on_close a ec s)

-- The states that are reached by steps from states with the property `P`.
pub data Reach (P : Server → Type 0) (s : Server) : Server → Type 0 where
  here : Reach P s s
  next : {t u : Server} → Reach P s t → P t → Step t u → Reach P s u
