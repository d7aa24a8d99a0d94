-- ===== src/Client/Quiet.antt =====
-- The calls of a client that leave its sockets alone, whatever they wait for
-- (include/websocket_proxy/websocket_proxy_client.h).
pub mod Calls
pub mod Requests
use websocket_proxy.Base.{
  ℕ, zero, suc, ◌+◌, ◌≡◌, refl, ap, sym, subst, ◌∙◌, Bool, true, false, not, ◌&&◌, List, Text,
  if◌then◌else◌, if-case, ltb, leb, ◌==◌, length,
}
use websocket_proxy.Protocol.{
  Status, WsOpen, RegisterMessage, Message, Body, heartbeat, sub64, heartbeat_interval,
}
use websocket_proxy.Client.State.{
  Client, client_now, client_tick, client_heartbeat, request, send_request, unregister_from,
  is_pending, is_failed,
}
use websocket_proxy.Layout.{body_size}
use websocket_proxy.Server.Callbacks.{get_message_size}
use websocket_proxy.Client.Sent.{HasSent, IsSent, is_request, request-IsRequest}
use websocket_proxy.Client.Waiting.{
  Run, finished, aborted, unfinished, ◌>>=◌, is_late, is_early, beat, wait_loop, wait_for_response,
  spawn_loop, ready_loop, wait_for_server_ready,
}
use websocket_proxy.Client.Connecting.{
  Reply, Setup, strcpy_s, c_str, open_queue, launch, attach, spawn_proxy_server, registered,
  register_client, connect,
}
use websocket_proxy.Client.Requests.{
  url_limit, send_open, send_open_message, opened_socket, open_web_socket, close_web_socket,
  copy_symbol, subscribe_to, unsubscribe_from,
}
use websocket_proxy.Client.Callbacks.{opened_ids, IsOrdered, told}

-- What a call returns has the property.
abbrev pub Each {ℓ κ} : {A : Type ℓ} → (A → Type κ) → Run A → Type κ
Each P (finished a) = P a
Each P aborted = Unit
Each P unfinished = Unit

pub Each-bind {ℓ κ μ ν} :
    {A : Type ℓ} {B : Type κ} (P : A → Type μ) (Q : B → Type ν) (m : Run A) (k : A → Run B)
    → Each P m
    → ((a : A) → P a → Each Q (k a))
    → Each Q (m >>= k)
Each-bind P Q (finished a) k h n = n a h
Each-bind P Q aborted k h n = tt
Each-bind P Q unfinished k h n = tt

-- The sockets, and what the callbacks have told of them, are as before; what is sent are requests.
pub record Quiet (c d : Client) : Type 0 where
  pub clock : d.clock ≡ c.clock
  pub pid : d.pid ≡ c.pid
  pub id : d.id ≡ c.id
  pub websockets : d.websockets ≡ c.websockets
  pub opened : opened_ids d.calls ≡ opened_ids c.calls
  pub ordered : IsOrdered c.calls → IsOrdered d.calls
  pub sent : HasSent c → HasSent d
  pub told : told d.calls ≡ told c.calls

pub Quiet-refl : (c : Client) → Quiet c c
Quiet-refl c = record {
  clock = refl;
  pid = refl;
  id = refl;
  websockets = refl;
  opened = refl;
  ordered = λ h. h;
  sent = λ h. h;
  told = refl;
}

pub Quiet-trans : {c d e : Client} → Quiet c d → Quiet d e → Quiet c e
Quiet-trans p q = record {
  clock = q.clock ∙ p.clock;
  pid = q.pid ∙ p.pid;
  id = q.id ∙ p.id;
  websockets = q.websockets ∙ p.websockets;
  opened = q.opened ∙ p.opened;
  ordered = λ h. q.ordered (p.ordered h);
  sent = λ h. q.sent (p.sent h);
  told = q.told ∙ p.told;
}

-- All but the sockets and the calls may change.
pub Quiet-same :
    {c d : Client}
    → d.clock ≡ c.clock
    → d.pid ≡ c.pid
    → d.id ≡ c.id
    → d.websockets ≡ c.websockets
    → d.calls ≡ c.calls
    → Quiet c d
Quiet-same t p i w k = record {
  clock = t;
  pid = p;
  id = i;
  websockets = w;
  opened = ap opened_ids k;
  ordered = subst IsOrdered (sym k);
  sent = λ h. rw (p, k) h;
  told = ap told k;
}

pub Quiet-send_request :
    (size n : ℕ) (body : Body) (c : Client)
    → body_size body ≡ size + n
    → is_request body ≡ true
    → Quiet c (send_request (get_message_size size n) (request c body) c)
unfolding send_request opened_ids IsOrdered told
Quiet-send_request size n body c e k = record {
  clock = refl;
  pid = refl;
  id = refl;
  websockets = refl;
  opened = refl;
  ordered = λ h. h;
  sent = λ h. (request-IsRequest size n body c e k, h);
  told = refl;
}

pub Quiet-client_heartbeat : (time : ℕ) (c : Client) → Quiet c (client_heartbeat time c).1
unfolding client_heartbeat
Quiet-client_heartbeat time c =
    if-case (λ (r : Bool × Client). Quiet c r.1)
      (not (c.server_pid == 0) && ltb heartbeat_interval (sub64 time c.last_heartbeat_time)) _ _
      (λ _. Quiet-send_request 0 0 heartbeat c refl refl) (λ _. Quiet-refl c)

pub Quiet-unregister_from : (c : Client) → Quiet c (unregister_from c)
unfolding unregister_from
Quiet-unregister_from c =
    Quiet-trans (Quiet-send_request 0 0 Body.unregister c refl refl)
      (Quiet-same refl refl refl refl refl)

-- The time of a reading, or of the server's last message, may change.
pub Quiet-tick : (c : Client) → Quiet c (client_tick c)
Quiet-tick c = Quiet-same refl refl refl refl refl

pub Each-if {ℓ κ} :
    {A : Type ℓ} (P : A → Type κ) (b : Bool) (x y : Run A)
    → Each P x
    → Each P y
    → Each P (if b then x else y)
Each-if P b x y h k = if-case (Each P) b x y (λ _. h) (λ _. k)

pub Each-map {ℓ κ μ} :
    {A : Type ℓ} (P : A → Type κ) (Q : A → Type μ) (r : Run A)
    → ((a : A) → P a → Q a)
    → Each P r
    → Each Q r
Each-map P Q (finished a) h k = h a k
Each-map P Q aborted h k = tt
Each-map P Q unfinished h k = tt
