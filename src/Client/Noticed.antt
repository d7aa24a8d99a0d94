-- ===== src/Client/Noticed.antt =====
-- The sockets of a client whose worker reads one message after another
-- (include/websocket_proxy/websocket_proxy_client.h, `doWork`).
use websocket_proxy.Base.{
  ℕ, ◌≡◌, ◌≢◌, refl, ap, sym, ◌∙◌, Bool, true, false, Option, some, List, [], ◌∷◌, if◌then◌else◌,
  if-case, nat_eq, ◌==◌, not, ◌&&◌, ltb, Bool-cases, inl, inr, arith,
}
use websocket_proxy.Base.Sets.{has, insert, remove, remove-absent}
use websocket_proxy.Protocol.{
  WsOpen, WsClose, Body, register, unregister, open_ws, close_ws, heartbeat, ws_request, ws_data,
  ws_error, subscribe, unsubscribe, log_level, unknown, Message, sub64, heartbeat_interval,
}
use websocket_proxy.Client.State.{Client, client_now, client_tick, client_heartbeat, send_request}
use websocket_proxy.Client.Worker.{
  handle_ws_open, handle_ws_close, handle_ws_error, handle_ws_data, receive, work_on, work_round,
  do_work,
}

-- The sockets of process `self` after a message of its server.
abbrev pub note : ℕ → Body → List ℕ → List ℕ
note self (open_ws o) ids = if o.client_pid == self then insert o.id ids else ids
note self (close_ws o) ids = remove o.id ids
note self (ws_error _) ids = ids
note self (ws_data _) ids = ids
note self (register _) ids = ids
note self unregister ids = ids
note self heartbeat ids = ids
note self (ws_request _) ids = ids
note self (subscribe _) ids = ids
note self (unsubscribe _) ids = ids
note self (log_level _) ids = ids
note self (unknown _) ids = ids

-- The sockets after all the messages of server `server` among some messages, in their order.
abbrev pub noticed : (server self : ℕ) → List Message → List ℕ → List ℕ
noticed server self [] ids = ids
noticed server self (msg ∷ msgs) ids =
    noticed server self msgs (if server == msg.pid then note self msg.body ids else ids)

abbrev pub reads : List Message → List (Option Message)
reads [] = []
reads (msg ∷ msgs) = some msg ∷ reads msgs

pub opened_websockets :
    (o : WsOpen) (c : Client)
    → (handle_ws_open o c).websockets
      ≡ (if o.client_pid == c.pid then insert o.id c.websockets else c.websockets)
unfolding handle_ws_open
opened_websockets o c = elim (Bool-cases (o.client_pid == c.pid)) [
  | inl mine ↦ rw mine refl
  | inr other ↦ rw other refl
]

pub closed_websockets :
    (o : WsClose) (c : Client) → (handle_ws_close o c).websockets ≡ remove o.id c.websockets
unfolding handle_ws_close
closed_websockets o c =
    if-case (λ (d : Client). d.websockets ≡ remove o.id c.websockets) (has o.id c.websockets) _ _
      (λ _. refl) (λ away. sym (remove-absent o.id c.websockets away))

-- What a round leaves, but for the sockets.
record Stays (c d : Client) : Type 0 where
  pid : d.pid ≡ c.pid
  server_pid : d.server_pid ≡ c.server_pid
  run : d.run ≡ c.run

-- A round leaves these, and gives the sockets `ids`.
record Leaves (c : Client) (ids : List ℕ) (d : Client) : Type 0 where
  stays : Stays c d
  websockets : d.websockets ≡ ids

Stays-refl : (c : Client) → Stays c c
Stays-refl c = record { pid = refl; server_pid = refl; run = refl }

Leaves-beat : (time : ℕ) (c : Client) → Leaves c c.websockets (client_heartbeat time c).1
unfolding client_heartbeat send_request
Leaves-beat time c =
    if-case (λ (r : Bool × Client). Leaves c c.websockets r.1)
      (not (c.server_pid == 0) && ltb heartbeat_interval (sub64 time c.last_heartbeat_time)) _ _
      (λ _. record {
        stays = record { pid = refl; server_pid = refl; run = refl };
        websockets = refl;
      })
      (λ _. record { stays = Stays-refl c; websockets = refl })

-- A handler that tests whether the client has the socket, or is the one that is meant.
Stays-if : (b : Bool) (c d e : Client) → Stays c d → Stays c e → Stays c (if b then d else e)
Stays-if true c d e h k = h
Stays-if false c d e h k = k

Stays-receive : (body : Body) (c : Client) → Stays c (receive body c)
unfolding receive handle_ws_open handle_ws_close handle_ws_error handle_ws_data
Stays-receive (open_ws o) c =
    Stays-if (o.client_pid == c.pid) c _ _ (record { pid = refl; server_pid = refl; run = refl })
      (Stays-refl c)
Stays-receive (close_ws o) c =
    Stays-if (has o.id c.websockets) c _ _ (record { pid = refl; server_pid = refl; run = refl })
      (Stays-refl c)
Stays-receive (ws_error e) c =
    Stays-if (has e.id c.websockets) c _ _ (record { pid = refl; server_pid = refl; run = refl })
      (Stays-refl c)
Stays-receive (ws_data d) c =
    Stays-if (has d.id c.websockets) c _ _ (record { pid = refl; server_pid = refl; run = refl })
      (Stays-refl c)
Stays-receive (register _) c = Stays-refl c
Stays-receive unregister c = Stays-refl c
Stays-receive heartbeat c = Stays-refl c
Stays-receive (ws_request _) c = Stays-refl c
Stays-receive (subscribe _) c = Stays-refl c
Stays-receive (unsubscribe _) c = Stays-refl c
Stays-receive (log_level _) c = Stays-refl c
Stays-receive (unknown _) c = Stays-refl c

kept_websockets :
    (b : Bool) (c d : Client)
    → d.websockets ≡ c.websockets
    → (if b then d else c).websockets ≡ c.websockets
kept_websockets true c d h = h
kept_websockets false c d h = refl

websockets-receive :
    (body : Body) (c : Client) → (receive body c).websockets ≡ note c.pid body c.websockets
unfolding receive handle_ws_error handle_ws_data
websockets-receive (open_ws o) c = opened_websockets o c
websockets-receive (close_ws o) c = closed_websockets o c
websockets-receive (ws_error e) c = kept_websockets (has e.id c.websockets) c _ refl
websockets-receive (ws_data d) c = kept_websockets (has d.id c.websockets) c _ refl
websockets-receive (register _) c = refl
websockets-receive unregister c = refl
websockets-receive heartbeat c = refl
websockets-receive (ws_request _) c = refl
websockets-receive (subscribe _) c = refl
websockets-receive (unsubscribe _) c = refl
websockets-receive (log_level _) c = refl
websockets-receive (unknown _) c = refl

-- The state in which a round hands a message on.
abbrev timed : Client → Client
timed c = record (client_tick c) { last_server_heartbeat_time = client_now c }

round-Leaves :
    (msg : Message) (c : Client)
    → c.server_pid ≢ 0
    → Leaves c (noticed c.server_pid c.pid (msg ∷ []) c.websockets) (work_round (some msg) c)
unfolding work_round work_on
round-Leaves msg c known = elim (Bool-cases (c.server_pid == msg.pid)) [
  | inl same ↦
      let s = Stays-receive msg.body (timed c) in
      let b = Leaves-beat (client_now c) (receive msg.body (timed c)) in
      rw (there, same)
        (record {
          stays = record {
            pid = b.stays.pid ∙ s.pid;
            server_pid = b.stays.server_pid ∙ s.server_pid;
            run = b.stays.run ∙ s.run;
          };
          websockets = b.websockets ∙ websockets-receive msg.body (timed c);
        })
  | inr other ↦
      rw (there, other)
        (record { stays = record { pid = refl; server_pid = refl; run = refl }; websockets = refl })
]
  where
    there : (c.server_pid == 0) ≡ false
    there = ground arith

taken : (b : Bool) (d e : Client) → b ≡ true → (if b then d else e) ≡ d
taken true d e h = refl
taken false d e h = cc

-- The sockets of a connected client whose worker reads some messages, one in each round, are those that
-- the opens that are meant for the client and the closes of its server, in the order of the messages,
-- leave of the ones it had.
pub do_work-noticed :
    (msgs : List Message) (c : Client)
    → c.run ≡ true
    → c.server_pid ≢ 0
    → (do_work (reads msgs) c).websockets ≡ noticed c.server_pid c.pid msgs c.websockets
unfolding do_work
do_work-noticed [] c on known = refl
do_work-noticed (msg ∷ msgs) c on known =
    let r = round-Leaves msg c known in
    let rest =
      do_work-noticed msgs (work_round (some msg) c) (r.stays.run ∙ on)
        (λ z. known (sym r.stays.server_pid ∙ z)) in
    ap (λ (d : Client). d.websockets) (taken c.run _ c on)
    ∙ (rest ∙ λ i. noticed (r.stays.server_pid i) (r.stays.pid i) msgs (r.websockets i))
