-- ===== src/Client/Steps.antt =====
-- A client as a transition system (include/websocket_proxy/websocket_proxy_client.h): the calls of
-- its user and the rounds of its worker thread, in any order.
use websocket_proxy.Base.{ℕ, ◌≡◌, Bool, Option, none, Text}
use websocket_proxy.Protocol.{Status, Message, WsOpen}
use websocket_proxy.Client.State.{Client}
use websocket_proxy.Client.Waiting.{finished}
use websocket_proxy.Client.Connecting.{Reply, Setup}
use websocket_proxy.Client.Requests.{
  open_web_socket, open_web_socket_async, close_web_socket, subscribe_to, unsubscribe_from,
  set_log_level, send_bytes, destroy,
}
use websocket_proxy.Client.Worker.{work_round}

pub data Act (c : Client) : Client → Type 0 where
  opens :
      (fuel : ℕ) (env : Setup) (reply : Reply WsOpen) (url key : Text) (answer : ℕ × Bool)
      {d : Client}
      → open_web_socket fuel env reply url key c ≡ finished (answer, d)
      → Act c d
  opens_async :
      (fuel : ℕ) (env : Setup) (url key : Text) (sent : Bool) {d : Client}
      → open_web_socket_async fuel env url key c ≡ finished (sent, d)
      → Act c d
  closes :
      (fuel : ℕ) (status : ℕ → Status) (id : ℕ) (answer : Bool) {d : Client}
      → close_web_socket fuel status id c ≡ finished (answer, d)
      → Act c d
  subscribes :
      (fuel : ℕ) (status : ℕ → Status) (id : ℕ) (symbol bytes : Text) (type : ℕ) (answer : Bool)
      {d : Client}
      → subscribe_to fuel status id symbol bytes type c ≡ finished (answer, d)
      → Act c d
  unsubscribes :
      (id : ℕ) (symbol bytes : Text) (answer : Bool) {d : Client}
      → unsubscribe_from id symbol bytes c ≡ finished (answer, d)
      → Act c d
  sets_level : (level : ℕ) → Act c (set_log_level level c).1
  sends : (id : ℕ) (bytes : Text) → Act c (send_bytes id bytes c)
  ends : Act c (destroy c)
  works : (read : Option Message) → Act c (work_round read c)

-- What the worker of a client reads from the queue of the servers.
abbrev pub act_read : {c d : Client} → Act c d → Option Message
act_read (works read) = read
act_read (opens _ _ _ _ _ _ _) = none
act_read (opens_async _ _ _ _ _ _) = none
act_read (closes _ _ _ _ _) = none
act_read (subscribes _ _ _ _ _ _ _ _) = none
act_read (unsubscribes _ _ _ _ _) = none
act_read (sets_level _) = none
act_read (sends _ _) = none
act_read ends = none

-- The states that a client reaches.
pub data Acts (c : Client) : Client → Type 0 where
  none_yet : Acts c c
  and_then : {d e : Client} → Acts c d → Act d e → Acts c e
