-- ===== src/Client/Sending.antt =====
-- All that a client sends, from its constructor on
-- (include/websocket_proxy/websocket_proxy_client.h).
use websocket_proxy.Base.{
  inl, inr, ℕ, ◌≡◌, refl, subst, ◌∙◌, Option, none, some, List, [], ◌∷◌, Text, All, if-case, ◌==◌,
  nat_eq,
}
use websocket_proxy.Base.Sets.{has}
use websocket_proxy.Protocol.{
  Body, register, unregister, open_ws, close_ws, heartbeat, ws_request, ws_data, ws_error,
  subscribe, unsubscribe, log_level, unknown, Message,
}
use websocket_proxy.Client.State.{
  Client, new_client_of, call, websocket_closed, server_disconnected, client_now, client_tick,
  client_heartbeat,
}
use websocket_proxy.Client.Sent.{IsSent, HasSent}
use websocket_proxy.Client.Worker.{
  handle_ws_open, handle_ws_close, handle_ws_error, handle_ws_data, receive, close_all_websockets,
  lose_server, is_silent, work_on, work_idle, work_round,
}
use websocket_proxy.Client.Quiet.{Quiet, Quiet-tick, Quiet-client_heartbeat}
use websocket_proxy.Client.Acting.{Act-cases}
use websocket_proxy.Client.Steps.{Act, Acts, act_read, none_yet, and_then}

-- The client keeps its process id, and what it sends are requests.
pub record Sends (c d : Client) : Type 0 where
  pub pid : d.pid ≡ c.pid
  pub sent : HasSent c → HasSent d

Sends-refl : (c : Client) → Sends c c
Sends-refl c = record { pid = refl; sent = λ h. h }

Sends-trans : {c d e : Client} → Sends c d → Sends d e → Sends c e
Sends-trans p q = record { pid = q.pid ∙ p.pid; sent = λ h. q.sent (p.sent h) }

Sends-Quiet : {c d : Client} → Quiet c d → Sends c d
Sends-Quiet q = record { pid = q.pid; sent = q.sent }

-- One call of the user's callbacks.
Sends-told : {c d : Client} → d.pid ≡ c.pid → (HasSent c → HasSent d) → Sends c d
Sends-told p k = record { pid = p; sent = k }

Sends-receive : (b : Body) (c : Client) → Sends c (receive b c)
unfolding receive handle_ws_open handle_ws_close handle_ws_error handle_ws_data
Sends-receive (open_ws o) c =
    if-case (Sends c) (o.client_pid == c.pid) _ _ (λ _. Sends-told refl (λ h. (tt, h)))
      (λ _. Sends-refl c)
Sends-receive (close_ws k) c =
    if-case (Sends c) (has k.id c.websockets) _ _ (λ _. Sends-told refl (λ h. (tt, h)))
      (λ _. Sends-refl c)
Sends-receive (ws_error e) c =
    if-case (Sends c) (has e.id c.websockets) _ _ (λ _. Sends-told refl (λ h. (tt, h)))
      (λ _. Sends-refl c)
Sends-receive (ws_data d) c =
    if-case (Sends c) (has d.id c.websockets) _ _ (λ _. Sends-told refl (λ h. (tt, h)))
      (λ _. Sends-refl c)
Sends-receive (register _) c = Sends-refl c
Sends-receive unregister c = Sends-refl c
Sends-receive heartbeat c = Sends-refl c
Sends-receive (ws_request _) c = Sends-refl c
Sends-receive (subscribe _) c = Sends-refl c
Sends-receive (unsubscribe _) c = Sends-refl c
Sends-receive (log_level _) c = Sends-refl c
Sends-receive (unknown _) c = Sends-refl c

Sends-close_all : (ids : List ℕ) (c : Client) → Sends c (close_all_websockets ids c)
unfolding close_all_websockets
Sends-close_all [] c = Sends-refl c
Sends-close_all (id ∷ ids) c =
    Sends-trans {d = call (websocket_closed id) c} (Sends-told refl (λ h. (tt, h)))
      (Sends-close_all ids (call (websocket_closed id) c))

Sends-lose_server : (c : Client) → Sends c (lose_server c)
unfolding lose_server
Sends-lose_server c =
    let d = call server_disconnected (record c { server_pid = 0 }) in
    let k = Sends-close_all c.websockets d in Sends-told k.pid (λ h. k.sent (tt, h))

Sends-work_idle : (time : ℕ) (c : Client) → Sends c (work_idle time c)
unfolding work_idle
Sends-work_idle time c =
    let k = Sends-Quiet (Quiet-client_heartbeat time c) in
    if-case (Sends c) (is_silent time (client_heartbeat time c).1) _ _
      (λ _. Sends-trans k (Sends-lose_server (client_heartbeat time c).1)) (λ _. k)

Sends-work_on : (time : ℕ) (msg : Message) (c : Client) → Sends c (work_on time msg c)
unfolding work_on
Sends-work_on time msg c =
    let d : Client = record c { last_server_heartbeat_time = time } in
    if-case (Sends c) (c.server_pid == msg.pid) _ _
      (λ _. Sends-trans {d = d} (Sends-told refl (λ h. h)) (
        Sends-trans (Sends-receive msg.body d)
          (Sends-Quiet (Quiet-client_heartbeat time (receive msg.body d)))))
      (λ _. Sends-told refl (λ h. h))

Sends-work_round : (read : Option Message) (c : Client) → Sends c (work_round read c)
unfolding work_round
Sends-work_round none c =
    if-case (Sends c) (c.server_pid == 0) _ _ (λ _. Sends-refl c)
      (λ _.
        Sends-trans (Sends-Quiet (Quiet-tick c)) (Sends-work_idle (client_now c) (client_tick c)))
Sends-work_round (some msg) c =
    if-case (Sends c) (c.server_pid == 0) _ _ (λ _. Sends-refl c)
      (λ _.
        Sends-trans (Sends-Quiet (Quiet-tick c)) (Sends-work_on (client_now c) msg (client_tick c)))

pub Sends-Act : {c d : Client} → Act c d → Sends c d
Sends-Act {c} act = elim (Act-cases act) [
  | inl q ↦ Sends-Quiet q
  | inr e ↦ rw e (Sends-work_round (act_read act) c)
]

Sends-Acts : {c d : Client} → Acts c d → Sends c d
Sends-Acts {c} none_yet = Sends-refl c
Sends-Acts (and_then a b) = Sends-trans (Sends-Acts a) (Sends-Act b)

-- Every message that a client has sent, in any state that it reaches, names the client's process, is one
-- of those that the server handles or a heartbeat, and was given as many bytes as its layout takes, over
-- uint32_t.
pub Acts-IsSent :
    (pid : ℕ) (name : Text) (clock : ℕ → ℕ) {c : Client}
    → Acts (new_client_of pid name clock) c
    → All (IsSent pid) c.calls
Acts-IsSent pid name clock {c} a =
    let k = Sends-Acts a in subst (λ (p : ℕ). All (IsSent p) c.calls) k.pid (k.sent tt)
