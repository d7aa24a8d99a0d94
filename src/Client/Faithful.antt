-- ===== src/Client/Faithful.antt =====
-- A client's set of sockets is what its callbacks have told
-- (include/websocket_proxy/websocket_proxy_client.h).
use websocket_proxy.Base.{
  inl, inr, ℕ, ◌≡◌, refl, ap, sym, subst, ◌∙◌, true, false, Option, none, some, List, [], ◌∷◌, Text,
  if-case, ◌==◌, nat_eq, arith,
}
use websocket_proxy.Base.Sets.{
  has, insert, remove, NoRepeats, insert-NoRepeats, remove-NoRepeats, remove-absent,
}
use websocket_proxy.Protocol.{
  WsOpen, WsClose, WsError, WsData, Body, register, unregister, open_ws, close_ws, heartbeat,
  ws_request, ws_data, ws_error, subscribe, unsubscribe, log_level, unknown, Message,
}
use websocket_proxy.Client.State.{
  Client, new_client_of, call, websocket_closed, server_disconnected, client_now, client_tick,
  client_heartbeat,
}
use websocket_proxy.Client.Worker.{
  handle_ws_open, handle_ws_close, handle_ws_error, handle_ws_data, receive, close_all_websockets,
  lose_server, is_silent, work_on, work_idle, work_round,
}
use websocket_proxy.Client.Callbacks.{opened_ids, IsOrdered}
use websocket_proxy.Client.Quiet.{Quiet, Quiet-same, Quiet-tick, Quiet-client_heartbeat}
use websocket_proxy.Client.Acting.{Act-cases}
use websocket_proxy.Client.Steps.{Act, Acts, act_read, none_yet, and_then}

-- The client's set is the set of sockets that the user was told to be open, and the user was told of
-- data, errors and closes only while the socket was open. `id_` is never set.
pub record IsFaithful (c : Client) : Type 0 where
  pub opened : opened_ids c.calls ≡ c.websockets
  pub unique : NoRepeats c.websockets
  pub ordered : IsOrdered c.calls
  pub id : c.id ≡ 0

Quiet-IsFaithful : {c d : Client} → Quiet c d → IsFaithful c → IsFaithful d
Quiet-IsFaithful q h = record {
  opened = q.opened ∙ (h.opened ∙ sym q.websockets);
  unique = subst NoRepeats (sym q.websockets) h.unique;
  ordered = q.ordered h.ordered;
  id = q.id ∙ h.id;
}

has-opened :
    (id : ℕ) (c : Client)
    → IsFaithful c
    → has id c.websockets ≡ true
    → has id (opened_ids c.calls) ≡ true
has-opened id c h there = ap (has id) h.opened ∙ there

handle_ws_open-IsFaithful :
    (opened : WsOpen) (c : Client) → IsFaithful c → IsFaithful (handle_ws_open opened c)
unfolding handle_ws_open opened_ids IsOrdered
handle_ws_open-IsFaithful opened c h =
    if-case IsFaithful (opened.client_pid == c.pid) _ _
      (λ _. record {
        opened = ap (insert opened.id) h.opened;
        unique = insert-NoRepeats opened.id c.websockets h.unique;
        ordered = h.ordered;
        id = h.id;
      })
      (λ _. h)

handle_ws_close-IsFaithful :
    (close : WsClose) (c : Client) → IsFaithful c → IsFaithful (handle_ws_close close c)
unfolding handle_ws_close opened_ids IsOrdered
handle_ws_close-IsFaithful close c h =
    if-case IsFaithful (has close.id c.websockets) _ _
      (λ there. record {
        opened = ap (remove close.id) h.opened;
        unique = remove-NoRepeats close.id c.websockets h.unique;
        ordered = (has-opened close.id c h there, h.ordered);
        id = h.id;
      })
      (λ _. h)

handle_ws_error-IsFaithful :
    (e : WsError) (c : Client) → IsFaithful c → IsFaithful (handle_ws_error e c)
unfolding handle_ws_error opened_ids IsOrdered
handle_ws_error-IsFaithful e c h =
    if-case IsFaithful (has e.id c.websockets) _ _
      (λ there. record {
        opened = h.opened;
        unique = h.unique;
        ordered = (has-opened e.id c h there, h.ordered);
        id = h.id;
      })
      (λ _. h)

handle_ws_data-IsFaithful :
    (d : WsData) (c : Client) → IsFaithful c → IsFaithful (handle_ws_data d c)
unfolding handle_ws_data opened_ids IsOrdered
handle_ws_data-IsFaithful d c h =
    if-case IsFaithful (has d.id c.websockets) _ _
      (λ there. record {
        opened = h.opened;
        unique = h.unique;
        ordered = (has-opened d.id c h there, h.ordered);
        id = h.id;
      })
      (λ _. h)

receive-IsFaithful : (b : Body) (c : Client) → IsFaithful c → IsFaithful (receive b c)
unfolding receive
receive-IsFaithful (open_ws opened) c h = handle_ws_open-IsFaithful opened c h
receive-IsFaithful (close_ws close) c h = handle_ws_close-IsFaithful close c h
receive-IsFaithful (ws_error e) c h = handle_ws_error-IsFaithful e c h
receive-IsFaithful (ws_data d) c h = handle_ws_data-IsFaithful d c h
receive-IsFaithful (register _) c h = h
receive-IsFaithful unregister c h = h
receive-IsFaithful heartbeat c h = h
receive-IsFaithful (ws_request _) c h = h
receive-IsFaithful (subscribe _) c h = h
receive-IsFaithful (unsubscribe _) c h = h
receive-IsFaithful (log_level _) c h = h
receive-IsFaithful (unknown _) c h = h

-- The callbacks of the loop close one socket after the other.
record IsEmptied (c d : Client) : Type 0 where
  opened : opened_ids d.calls ≡ []
  ordered : IsOrdered d.calls
  id : d.id ≡ c.id

remove-head : (id : ℕ) (ids : List ℕ) → has id ids ≡ false → remove id (id ∷ ids) ≡ ids
unfolding remove
remove-head id ids h = ground (arith, remove-absent id ids h)

has-head : (id : ℕ) (ids : List ℕ) → has id (id ∷ ids) ≡ true
unfolding has
has-head id ids = ground arith

close_all-IsEmptied :
    (ids : List ℕ) (c : Client)
    → opened_ids c.calls ≡ ids
    → NoRepeats ids
    → IsOrdered c.calls
    → IsEmptied c (close_all_websockets ids c)
unfolding close_all_websockets opened_ids IsOrdered
close_all-IsEmptied [] c h u o = record { opened = h; ordered = o; id = refl }
close_all-IsEmptied (id ∷ ids) c h (u, v) o =
    let k =
      close_all-IsEmptied ids (call (websocket_closed id) c)
        (ap (remove id) h ∙ remove-head id ids u) v (ap (has id) h ∙ has-head id ids, o) in
    record { opened = k.opened; ordered = k.ordered; id = k.id }

lose_server-IsFaithful : (c : Client) → IsFaithful c → IsFaithful (lose_server c)
unfolding lose_server opened_ids IsOrdered
lose_server-IsFaithful c h =
    let k =
      close_all-IsEmptied c.websockets (call server_disconnected (record c { server_pid = 0 }))
        h.opened h.unique h.ordered in
    record { opened = k.opened; unique = tt; ordered = k.ordered; id = k.id ∙ h.id }

beat-IsFaithful : (time : ℕ) (c : Client) → IsFaithful c → IsFaithful (client_heartbeat time c).1
beat-IsFaithful time c = Quiet-IsFaithful (Quiet-client_heartbeat time c)

work_on-IsFaithful :
    (time : ℕ) (msg : Message) (c : Client) → IsFaithful c → IsFaithful (work_on time msg c)
unfolding work_on
work_on-IsFaithful time msg c h =
    let seen =
      Quiet-IsFaithful {d = record c { last_server_heartbeat_time = time }}
        (Quiet-same refl refl refl refl refl) h in
    if-case IsFaithful (c.server_pid == msg.pid) _ _
      (λ _. beat-IsFaithful time _ (receive-IsFaithful msg.body _ seen)) (λ _. seen)

work_idle-IsFaithful : (time : ℕ) (c : Client) → IsFaithful c → IsFaithful (work_idle time c)
unfolding work_idle
work_idle-IsFaithful time c h =
    let k = beat-IsFaithful time c h in
    if-case IsFaithful (is_silent time (client_heartbeat time c).1) _ _
      (λ _. lose_server-IsFaithful (client_heartbeat time c).1 k) (λ _. k)

work_round-IsFaithful :
    (read : Option Message) (c : Client) → IsFaithful c → IsFaithful (work_round read c)
unfolding work_round
work_round-IsFaithful none c h =
    if-case IsFaithful (c.server_pid == 0) _ _ (λ _. h)
      (λ _. work_idle-IsFaithful (client_now c) (client_tick c) (Quiet-IsFaithful (Quiet-tick c) h))
work_round-IsFaithful (some msg) c h =
    if-case IsFaithful (c.server_pid == 0) _ _ (λ _. h)
      (λ _.
        work_on-IsFaithful (client_now c) msg (client_tick c) (Quiet-IsFaithful (Quiet-tick c) h))

Act-IsFaithful : {c d : Client} → Act c d → IsFaithful c → IsFaithful d
Act-IsFaithful {c} act h = elim (Act-cases act) [
  | inl q ↦ Quiet-IsFaithful q h
  | inr e ↦ rw e (work_round-IsFaithful (act_read act) c h)
]

-- In every state that a client reaches, its set of sockets is the set of those that its user was told
-- to be open and not to be closed, without repetition; the user was told of data, of errors and of
-- closes only for sockets that were open to them then; and `id_` is 0.
pub Acts-IsFaithful :
    (pid : ℕ) (name : Text) (clock : ℕ → ℕ) {c : Client}
    → Acts (new_client_of pid name clock) c
    → IsFaithful c
unfolding opened_ids IsOrdered
Acts-IsFaithful pid name clock none_yet = record {
  opened = refl;
  unique = tt;
  ordered = tt;
  id = refl;
}
Acts-IsFaithful pid name clock (and_then a b) = Act-IsFaithful b (Acts-IsFaithful pid name clock a)
