-- ===== src/World/Backed.antt =====
-- What the user of a client is told, and the messages behind it
-- (include/websocket_proxy/websocket_proxy_client.h, the handlers of `doWork`).
use websocket_proxy.Base.{
  ℕ, ◌≡◌, refl, ap, sym, ◌∙◌, Option, none, some, List, [], ◌∷◌, Text, ◌⊎◌, inl, inr, Exists, take,
  length, if-case, ◌==◌, ==_iff, nat_eq, take-length,
}
use websocket_proxy.Base.Sets.{has}
use websocket_proxy.Protocol.{
  Body, register, unregister, open_ws, close_ws, heartbeat, ws_request, ws_data, ws_error,
  subscribe, unsubscribe, log_level, unknown, Message, WsOpen,
}
use websocket_proxy.Server.Telling.{IsWhole}
use websocket_proxy.Client.State.{
  Call, publish_request, server_disconnected, websocket_opened, websocket_closed, websocket_error,
  websocket_data, Client, call, client_now, client_tick, client_heartbeat,
}
use websocket_proxy.Client.Callbacks.{told}
use websocket_proxy.Client.Worker.{
  handle_ws_open, handle_ws_close, handle_ws_error, handle_ws_data, receive, close_all_websockets,
  lose_server, is_silent, work_on, work_idle, work_round,
}
use websocket_proxy.Client.Quiet.{Quiet, Quiet-client_heartbeat}

-- `P` says of a body that it has been published. Behind data and errors there is a message with just
-- those bytes, behind the opening of a socket one for this process, and behind a close there is a
-- message or the loss of the server.
abbrev pub IsBacked : (Body → Type 0) → ℕ → Call → List Call → Type 0
IsBacked P pid (publish_request _ _) cs = Unit
IsBacked P pid server_disconnected cs = Unit
IsBacked P pid (websocket_opened id) cs =
    (o : WsOpen) × (P (open_ws o) × ((o.id ≡ id) × (o.client_pid ≡ pid)))
IsBacked P pid (websocket_closed id) cs =
    P (close_ws (record { id = id })) ⊎ Exists (λ x. x ≡ server_disconnected) cs
IsBacked P pid (websocket_error id err) cs =
    P (ws_error (record { id = id; len = length err; err = err }))
IsBacked P pid (websocket_data id bytes remaining) cs =
    P (ws_data (record { id = id; len = length bytes; remaining = remaining; bytes = bytes }))

abbrev pub AreBacked : (Body → Type 0) → ℕ → List Call → Type 0
AreBacked P pid [] = Unit
AreBacked P pid (x ∷ cs) = IsBacked P pid x cs × AreBacked P pid cs

-- More may have been published.
pub IsBacked-map :
    (P Q : Body → Type 0) (pid : ℕ) (x : Call) (cs : List Call)
    → ((b : Body) → P b → Q b)
    → IsBacked P pid x cs
    → IsBacked Q pid x cs
IsBacked-map P Q pid (publish_request _ _) cs k h = tt
IsBacked-map P Q pid server_disconnected cs k h = tt
IsBacked-map P Q pid (websocket_opened id) cs k (o, (h, e)) = (o, (k (open_ws o) h, e))
IsBacked-map P Q pid (websocket_closed id) cs k (inl h) = inl (k _ h)
IsBacked-map P Q pid (websocket_closed id) cs k (inr h) = inr h
IsBacked-map P Q pid (websocket_error id err) cs k h = k _ h
IsBacked-map P Q pid (websocket_data id bytes remaining) cs k h = k _ h

pub AreBacked-map :
    (P Q : Body → Type 0) (pid : ℕ) (cs : List Call)
    → ((b : Body) → P b → Q b)
    → AreBacked P pid cs
    → AreBacked Q pid cs
AreBacked-map P Q pid [] k h = tt
AreBacked-map P Q pid (x ∷ cs) k (h, l) =
    (IsBacked-map P Q pid x cs k h, AreBacked-map P Q pid cs k l)

-- What a client has told its user.
abbrev pub HasTold : (Body → Type 0) → Client → Type 0
HasTold P c = AreBacked P c.pid (told c.calls)

-- The bytes that a handler takes are all the bytes of a whole message.
all_taken : (n : ℕ) (bytes : Text) → length bytes ≡ n → take n bytes ≡ bytes
all_taken n bytes e = ap (λ (m : ℕ). take m bytes) (sym e) ∙ take-length bytes

module _ (P : Body → Type 0) where
  error_behind :
      (id len : ℕ) (err : Text)
      → length err ≡ len
      → P (ws_error (record { id = id; len = len; err = err }))
      → P (ws_error (record { id = id; len = length (take len err); err = take len err }))
  error_behind id len err e p = rw (all_taken len err e, e) p

  data_behind :
      (id len remaining : ℕ) (bytes : Text)
      → length bytes ≡ len
      → P (ws_data (record { id = id; len = len; remaining = remaining; bytes = bytes }))
      → P (
          ws_data (record {
            id = id;
            len = length (take len bytes);
            remaining = remaining;
            bytes = take len bytes;
          }))
  data_behind id len remaining bytes e p = rw (all_taken len bytes e, e) p

  receive-HasTold :
      (b : Body) (c : Client) → P b → IsWhole b → HasTold P c → HasTold P (receive b c)
  unfolding receive handle_ws_open handle_ws_close handle_ws_error handle_ws_data told
  receive-HasTold (open_ws o) c p _ h =
      if-case (HasTold P) (o.client_pid == c.pid) _ _
        (λ e. ((o, (p, (refl, (==_iff o.client_pid c.pid).0 e))), h)) (λ _. h)
  receive-HasTold (close_ws k) c p _ h =
      if-case (HasTold P) (has k.id c.websockets) _ _ (λ _. (inl p, h)) (λ _. h)
  receive-HasTold (ws_error e) c p w h =
      if-case (HasTold P) (has e.id c.websockets) _ _ (λ _. (error_behind e.id e.len e.err w p, h))
        (λ _. h)
  receive-HasTold (ws_data d) c p w h =
      if-case (HasTold P) (has d.id c.websockets) _ _
        (λ _. (data_behind d.id d.len d.remaining d.bytes w p, h)) (λ _. h)
  receive-HasTold (register _) c p _ h = h
  receive-HasTold unregister c p _ h = h
  receive-HasTold heartbeat c p _ h = h
  receive-HasTold (ws_request _) c p _ h = h
  receive-HasTold (subscribe _) c p _ h = h
  receive-HasTold (unsubscribe _) c p _ h = h
  receive-HasTold (log_level _) c p _ h = h
  receive-HasTold (unknown _) c p _ h = h

  -- A client that has told of the loss of its server may tell that a socket is closed.
  close_all-HasTold :
      (ids : List ℕ) (c : Client)
      → Exists (λ x. x ≡ server_disconnected) (told c.calls)
      → HasTold P c
      → HasTold P (close_all_websockets ids c)
  unfolding close_all_websockets told
  close_all-HasTold [] c l h = h
  close_all-HasTold (id ∷ ids) c l h =
      close_all-HasTold ids (call (websocket_closed id) c) (inr l) (inr l, h)

  lose_server-HasTold : (c : Client) → HasTold P c → HasTold P (lose_server c)
  unfolding lose_server told
  lose_server-HasTold c h =
      close_all-HasTold c.websockets (call server_disconnected (record c { server_pid = 0 }))
        (inl refl) (tt, h)

  pub Quiet-HasTold : {c d : Client} → Quiet c d → HasTold P c → HasTold P d
  Quiet-HasTold q h = rw (q.pid, q.told) h

  work_on-HasTold :
      (time : ℕ) (msg : Message) (c : Client)
      → P msg.body
      → IsWhole msg.body
      → HasTold P c
      → HasTold P (work_on time msg c)
  unfolding work_on
  work_on-HasTold time msg c p w h =
      if-case (HasTold P) (c.server_pid == msg.pid) _ _
        (λ _. Quiet-HasTold (Quiet-client_heartbeat time _) (receive-HasTold msg.body _ p w h))
        (λ _. h)

  work_idle-HasTold : (time : ℕ) (c : Client) → HasTold P c → HasTold P (work_idle time c)
  unfolding work_idle
  work_idle-HasTold time c h =
      let k = Quiet-HasTold (Quiet-client_heartbeat time c) h in
      if-case (HasTold P) (is_silent time (client_heartbeat time c).1) _ _
        (λ _. lose_server-HasTold (client_heartbeat time c).1 k) (λ _. k)

  -- What a round of the worker needs to know of the message that it reads.
  abbrev pub IsGood : Option Message → Type 0
  IsGood none = Unit
  IsGood (some msg) = P msg.body × IsWhole msg.body

  pub work_round-HasTold :
      (read : Option Message) (c : Client)
      → IsGood read
      → HasTold P c
      → HasTold P (work_round read c)
  unfolding work_round
  work_round-HasTold none c g h =
      if-case (HasTold P) (c.server_pid == 0) _ _ (λ _. h)
        (λ _. work_idle-HasTold (client_now c) (client_tick c) h)
  work_round-HasTold (some msg) c (p, w) h =
      if-case (HasTold P) (c.server_pid == 0) _ _ (λ _. h)
        (λ _. work_on-HasTold (client_now c) msg (client_tick c) p w h)
