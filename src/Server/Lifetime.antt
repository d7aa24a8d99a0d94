-- ===== src/Server/Lifetime.antt =====
-- When the process ends by itself (src/websocket_proxy.cpp, `processClientMessage`, `shutdown`).
use websocket_proxy.Base.{
  ℕ, suc, ◌≤◌, ◌≡◌, ◌≢◌, refl, ap, sym, ◌∙◌, false, Option, none, some, List, [], ◌∷◌, nat_eq, ◌==◌,
  leb, if-case, Takes, arith, length,
}
use websocket_proxy.Base.Maps.{Map}
use websocket_proxy.Protocol.{Message, sub64}
use websocket_proxy.Server.State.{
  Server, Task, client_message, close_all, with_posted, with_opening, now, tick,
}
use websocket_proxy.Server.Clients.{start_heartbeat, check_heartbeats}
use websocket_proxy.Server.Requests.{Outcome, returned, thrown}
use websocket_proxy.Server.Loop.{
  dispatch, next_round, finish_round, idle_limit, handle_client_message, process_client_message,
  run_first_heartbeat, close_one, close_sockets, run_close_all, shutdown,
}
use websocket_proxy.Server.Steps.{
  Step, first_heartbeat_round, heartbeat_round, client_round, close_round, stop_round, signals,
  open_begins, open_ends, read_ends, write_ends, close_ends, Reach, here, next, init,
}
use websocket_proxy.Server.View.Requests.{state_of}
use websocket_proxy.Server.Telling.{Tells-as}
use websocket_proxy.Server.Core.{
  SameCore-close_socket, SameCore-on_read, SameCore-on_write, SameCore-on_close,
}
use websocket_proxy.Server.Handles.{
  IsIdle, Handles, Handles-refl, Handles-trans, Handles-core, Handles-at,
}
use websocket_proxy.Server.Handles.Clients.{Handles-check_heartbeats, Handles-send_heartbeat}
use websocket_proxy.Server.Handles.Requests.{
  Handles-dispatch, Handles-remove_closed_sockets, Handles-open_begin, Handles-open_end,
}

-- The steps keep that a time of shutdown is set only while there are no clients.
start_heartbeat-IsIdle : (s : Server) → IsIdle s → IsIdle (start_heartbeat s)
unfolding start_heartbeat
start_heartbeat-IsIdle s h =
    if-case IsIdle (check_heartbeats s).1.run _ _ (λ _. (Handles-check_heartbeats s).idle h)
      (λ _. (Handles-check_heartbeats s).idle h)

next_round-IsIdle : (s : Server) → IsIdle s → IsIdle (next_round s)
unfolding next_round
next_round-IsIdle s h =
    if-case IsIdle s.run _ _
      (λ _.
        if-case IsIdle (s.shutdown_time == 0) _ _ (λ _. h)
          (λ _.
            if-case IsIdle (leb idle_limit (sub64 (now s) s.shutdown_time)) _ _ (λ _. h) (λ _. h)))
      (λ _. h)

finish_round-IsIdle :
    (closed : List ℕ) (s : Server) (o : Outcome)
    → Handles s (state_of o)
    → IsIdle s
    → IsIdle (finish_round closed o)
finish_round-IsIdle closed s (returned t) l h =
    next_round-IsIdle _ ((Handles-remove_closed_sockets closed t).idle (l.idle h))
finish_round-IsIdle closed s (thrown t) l h = l.idle h

process-IsIdle :
    (read : Option Message) (closed : List ℕ) (s : Server)
    → IsIdle s
    → IsIdle (process_client_message read closed s)
unfolding process_client_message handle_client_message
process-IsIdle none closed s h =
    next_round-IsIdle _ ((Handles-remove_closed_sockets closed s).idle h)
process-IsIdle (some msg) closed s h =
    finish_round-IsIdle closed s (dispatch msg msg.body s) (Handles-dispatch msg msg.body s) h

pub Handles-close_sockets : (m : Map ℕ ℕ) (s : Server) → Handles s (close_sockets m s)
unfolding close_sockets close_one
Handles-close_sockets [] s = Handles-refl s
Handles-close_sockets ((id, a) ∷ m) s =
    Handles-trans
      (Handles-at (s.heap a) _ (Handles-refl s) λ w.
        let h = Handles-core (SameCore-close_socket a s) in
        record {
          timed = h.timed;
          idle = h.idle;
          posted = h.posted;
          run = h.run;
          tells = Tells-as h.tells refl refl refl (omega arith);
        })
      (Handles-close_sockets m _)

Step-IsIdle : {s t : Server} → Step s t → IsIdle s → IsIdle t
unfolding run_first_heartbeat run_close_all shutdown
Step-IsIdle {s} (first_heartbeat_round ts _) h =
    start_heartbeat-IsIdle _ ((Handles-send_heartbeat (now s) (tick (with_posted ts s))).idle h)
Step-IsIdle {s} (heartbeat_round ts _) h = start_heartbeat-IsIdle (with_posted ts s) h
Step-IsIdle {s} (client_round ts read closed _) h = process-IsIdle read closed (with_posted ts s) h
Step-IsIdle {s} (close_round ts _) h =
    (Handles-close_sockets s.by_id (record (with_posted ts s) { run = false })).idle h
Step-IsIdle (stop_round ts _) h = h
Step-IsIdle signals h = h
Step-IsIdle {s} (open_begins o os _) h = (Handles-open_begin o.address s).idle h
Step-IsIdle {s} (open_ends o os r _) h =
    (Handles-open_end o.address o.message r (with_opening os s)).idle h
Step-IsIdle {s} (read_ends a ec bytes) h = (Handles-core (SameCore-on_read a ec bytes s)).idle h
Step-IsIdle {s} (write_ends a ec n) h = (Handles-core (SameCore-on_write a ec n s)).idle h
Step-IsIdle {s} (close_ends a ec) h = (Handles-core (SameCore-on_close a ec s)).idle h

pub Reach-IsIdle :
    {P : Server → Type 0} (pid : ℕ) (clock : ℕ → ℕ) {s : Server}
    → Reach P (init pid clock) s
    → IsIdle s
unfolding init
Reach-IsIdle pid clock here = λ _. refl
Reach-IsIdle pid clock (next r _ st) = Step-IsIdle st (Reach-IsIdle pid clock r)

-- There are no clients, and the time of shutdown has long passed.
abbrev pub IsExpired : Server → Type 0
IsExpired u =
    (u.clients ≡ [])
    × (u.shutdown_time ≢ 0)
    × ((n : ℕ) × (u.reads ≡ suc n) × (60000 ≤ sub64 (u.clock n) u.shutdown_time))

longer : {A : Type 0} (x : A) (xs : List A) → xs ≢ x ∷ xs
longer x xs e = absurd (omega (arith, ap length e))

next_round-IsExpired :
    (s : Server) (ts : List Task)
    → IsIdle s
    → s.posted ≡ ts
    → (next_round s).posted ≡ close_all ∷ ts
    → IsExpired (next_round s)
unfolding next_round
next_round-IsExpired s ts h p q =
    if-case Goal s.run _ _
      (λ _.
        if-case Goal (s.shutdown_time == 0) _ _ (λ _ posted. absurd (other posted))
          (λ set.
            if-case Goal (leb idle_limit (sub64 (now s) s.shutdown_time)) _ _
              (λ late posted. (
                h (ground arith),
                (λ (z : s.shutdown_time ≡ 0). ground arith),
                (s.reads, refl, ground arith),
              ))
              (λ _ posted. absurd (other posted))))
      (λ _ posted. absurd (longer close_all ts (sym p ∙ posted))) q
  where
    Goal : Server → Type 0
    Goal u = u.posted ≡ close_all ∷ ts → IsExpired u

    other : client_message ∷ s.posted ≡ close_all ∷ ts → ⊥
    other e = cc

finish_round-IsExpired :
    (closed : List ℕ) (s : Server) (o : Outcome)
    → Handles s (state_of o)
    → IsIdle s
    → (finish_round closed o).posted ≡ close_all ∷ s.posted
    → IsExpired (finish_round closed o)
finish_round-IsExpired closed s (returned t) l h e =
    let k = Handles-trans l (Handles-remove_closed_sockets closed t) in
    next_round-IsExpired _ s.posted (k.idle h) k.posted e
finish_round-IsExpired closed s (thrown t) l h e =
    absurd (longer close_all s.posted (sym l.posted ∙ e))

-- Whatever is read, a round that begins the shutdown of a state that the process reached ends with
-- no clients and with a time of shutdown that lies 60000 milliseconds or more, over uint64_t, before
-- the last reading of the clock.
pub begin-IsExpired :
    {P : Server → Type 0} (pid : ℕ) (clock : ℕ → ℕ) {s : Server} (ts : List Task)
    (read : Option Message) (closed : List ℕ)
    → Reach P (init pid clock) s
    → Takes client_message s.posted ts
    → (process_client_message read closed (with_posted ts s)).posted ≡ close_all ∷ ts
    → IsExpired (process_client_message read closed (with_posted ts s))
unfolding process_client_message handle_client_message
begin-IsExpired pid clock {s} ts none closed r t q =
    let h = Handles-remove_closed_sockets closed (with_posted ts s) in
    next_round-IsExpired _ ts (h.idle (Reach-IsIdle pid clock r)) h.posted q
begin-IsExpired pid clock {s} ts (some msg) closed r t q =
    finish_round-IsExpired closed (with_posted ts s) (dispatch msg msg.body (with_posted ts s))
      (Handles-dispatch msg msg.body (with_posted ts s)) (Reach-IsIdle pid clock r) q
