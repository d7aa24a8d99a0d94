-- ===== src/World.antt =====
-- Any number of server processes and of clients on one machine (src/websocket_proxy.cpp,
-- include/websocket_proxy/websocket_proxy_client.h), with the two queues between them. Of a queue it is
-- assumed only that a read returns nothing or a message that has been written to the queue: messages may
-- be lost, read late, again or in another order.
pub mod Backed
pub mod Told
use websocket_proxy.Base.{ℕ, ◌≡◌, Option, none, some, List, Text, if◌then◌else◌, ◌==◌, Exists}
use websocket_proxy.Protocol.{Message, Body}
use websocket_proxy.Server.State.{
  Server, Effect, publish, publish_closed, respond, spawn, async_read, async_write, async_close,
  set_level, start_timer,
}
use websocket_proxy.Server.Steps.{
  Step, first_heartbeat_round, heartbeat_round, client_round, close_round, stop_round, signals,
  open_begins, open_ends, read_ends, write_ends, close_ends, init,
}
use websocket_proxy.Client.State.{
  Call, publish_request, server_disconnected, websocket_opened, websocket_closed, websocket_error,
  websocket_data, Client, new_client_of,
}
use websocket_proxy.Client.Steps.{Act, act_read}

pub record World : Type 0 where
  pub servers : ℕ → Server
  pub clients : ℕ → Client

-- What a step of a server reads from the queue of the clients.
abbrev pub step_read : {s t : Server} → Step s t → Option Message
step_read (client_round _ read _ _) = read
step_read (first_heartbeat_round _ _) = none
step_read (heartbeat_round _ _) = none
step_read (close_round _ _) = none
step_read (stop_round _ _) = none
step_read signals = none
step_read (open_begins _ _ _) = none
step_read (open_ends _ _ _ _) = none
step_read (read_ends _ _ _) = none
step_read (write_ends _ _ _) = none
step_read (close_ends _ _) = none

-- The entries of the logs that write to the queues.
abbrev pub Publishes : (Message → Type 0) → Effect → Type 0
Publishes P (publish n msg) = P msg
Publishes P (publish_closed _) = ⊥
Publishes P (respond _) = ⊥
Publishes P (spawn _) = ⊥
Publishes P (async_read _) = ⊥
Publishes P (async_write _ _) = ⊥
Publishes P (async_close _) = ⊥
Publishes P (set_level _) = ⊥
Publishes P start_timer = ⊥

abbrev pub Requests : (Message → Type 0) → Call → Type 0
Requests P (publish_request n msg) = P msg
Requests P server_disconnected = ⊥
Requests P (websocket_opened _) = ⊥
Requests P (websocket_closed _) = ⊥
Requests P (websocket_error _ _) = ⊥
Requests P (websocket_data _ _ _) = ⊥

-- Some server has published such a message; some client has.
abbrev pub HasPublished : (Message → Type 0) → (ℕ → Server) → Type 0
HasPublished P servers = (k : ℕ) × Exists (Publishes P) (servers k).effects

abbrev pub HasRequested : (Message → Type 0) → (ℕ → Client) → Type 0
HasRequested P clients = (n : ℕ) × Exists (Requests P) (clients n).calls

abbrev pub WhenRead : (Message → Type 0) → Option Message → Type 0
WhenRead P none = Unit
WhenRead P (some msg) = P msg

abbrev pub set_at {ℓ} : {A : Type ℓ} → ℕ → A → (ℕ → A) → ℕ → A
set_at k x f j = if k == j then x else f j

-- One program takes a step.
pub data Turn (w : World) : World → Type 0 where
  server_turn :
      (k : ℕ) {t : Server} (step : Step (w.servers k) t)
      → WhenRead (λ msg. HasRequested (λ m. m ≡ msg) w.clients) (step_read step)
      → Turn w (record w { servers = set_at k t w.servers })
  client_turn :
      (n : ℕ) {d : Client} (act : Act (w.clients n) d)
      → WhenRead (λ msg. HasPublished (λ m. m ≡ msg) w.servers) (act_read act)
      → Turn w (record w { clients = set_at n d w.clients })

-- The programs as they start: server number `k` has process id `server_pid k`, client number `n` has
-- `client_pid n`.
pub record Start : Type 0 where
  pub server_pid : ℕ → ℕ
  pub server_clock : ℕ → ℕ → ℕ
  pub client_pid : ℕ → ℕ
  pub client_name : ℕ → Text
  pub client_clock : ℕ → ℕ → ℕ

abbrev pub world : Start → World
world st = record {
  servers = λ k. init (st.server_pid k) (st.server_clock k);
  clients = λ n. new_client_of (st.client_pid n) (st.client_name n) (st.client_clock n);
}

-- The worlds that are reached.
pub data Turns (w : World) : World → Type 0 where
  at_first : Turns w w
  turn_by : {v u : World} → Turns w v → Turn v u → Turns w u
