-- ===== src/Server/Idling.antt =====
-- Since when a process has had no clients when it ends by itself (src/websocket_proxy.cpp,
-- `unregisterClient`, `processClientMessage`).
use websocket_proxy.Base.{
  ℕ, ◌≤◌, ◌<◌, ◌≡◌, ◌⊎◌, inl, inr, refl, ap, ◌∙◌, Option, none, some, List, [], ◌∷◌, ◌==◌, leb,
  if-case, Takes, arith, nat_eq, Bool-cases, ◌≢◌, false,
}
use websocket_proxy.Protocol.{Message, sub64}
use websocket_proxy.Server.State.{
  Server, Task, client_message, close_all, with_posted, with_opening, now, tick,
}
use websocket_proxy.Server.Clients.{start_heartbeat, check_heartbeats}
use websocket_proxy.Server.Requests.{Outcome, returned, thrown}
use websocket_proxy.Server.Loop.{
  dispatch, next_round, finish_round, idle_limit, handle_client_message, process_client_message,
  remove_closed_sockets, run_first_heartbeat, run_close_all, shutdown,
}
use websocket_proxy.Server.Steps.{
  Step, first_heartbeat_round, heartbeat_round, client_round, close_round, stop_round, signals,
  open_begins, open_ends, read_ends, write_ends, close_ends, Reach, here, next, init,
}
use websocket_proxy.Server.View.Requests.{state_of}
use websocket_proxy.Server.Core.{SameCore-on_read, SameCore-on_write, SameCore-on_close}
use websocket_proxy.Server.Handles.{Timing, Timing-trans, Handles, Handles-core, Handles-trans}
use websocket_proxy.Server.Handles.Clients.{Handles-check_heartbeats, Handles-send_heartbeat}
use websocket_proxy.Server.Handles.Requests.{
  Handles-dispatch, Handles-remove_closed_sockets, Handles-open_begin, Handles-open_end,
}
use websocket_proxy.Server.Lifetime.{
  Handles-close_sockets, Reach-IsIdle, IsExpired, begin-IsExpired,
}
use websocket_proxy.Server.Published.{Step-Tells, Tells-start_heartbeat}
use websocket_proxy.Server.Telling.{Tells, Tells-quiet, Tells-trans}

-- The same time, and perhaps more readings of the clock.
Timing-as :
    (s t u : Server)
    → Timing s t
    → u.shutdown_time ≡ t.shutdown_time
    → t.reads ≤ u.reads
    → Timing s u
Timing-as s t u (inl z) e r = inl (e ∙ z)
Timing-as s t u (inr (inl d)) e r = inr (inl (e ∙ d))
Timing-as s t u (inr (inr (m, a, b, d))) e r = inr (inr (m, a, omega (arith, b, r), e ∙ d))

Timing-start_heartbeat : (s : Server) → Timing s (start_heartbeat s)
unfolding start_heartbeat
Timing-start_heartbeat s =
    if-case (Timing s) (check_heartbeats s).1.run _ _ (λ _. (Handles-check_heartbeats s).timed)
      (λ _. (Handles-check_heartbeats s).timed)

Timing-next_round : (s t : Server) → Timing s t → Timing s (next_round t)
unfolding next_round
Timing-next_round s t l =
    if-case (Timing s) t.run _ _
      (λ _.
        if-case (Timing s) (t.shutdown_time == 0) _ _ (λ _. l)
          (λ _.
            if-case (Timing s) (leb idle_limit (sub64 (now t) t.shutdown_time)) _ _
              (λ _. Timing-as s t (tick t) l refl (omega arith))
              (λ _. Timing-as s t (tick t) l refl (omega arith))))
      (λ _. l)

Timing-finish_round :
    (closed : List ℕ) (s : Server) (o : Outcome)
    → Handles s (state_of o)
    → Timing s (finish_round closed o)
Timing-finish_round closed s (returned t) l =
    Timing-next_round s (remove_closed_sockets closed t)
      (Handles-trans l (Handles-remove_closed_sockets closed t)).timed
Timing-finish_round closed s (thrown t) l = l.timed

Timing-process :
    (read : Option Message) (closed : List ℕ) (s : Server)
    → Timing s (process_client_message read closed s)
unfolding process_client_message handle_client_message
Timing-process none closed s =
    Timing-next_round s (remove_closed_sockets closed s)
      (Handles-remove_closed_sockets closed s).timed
Timing-process (some msg) closed s =
    Timing-finish_round closed s (dispatch msg msg.body s) (Handles-dispatch msg msg.body s)

Step-Timing : {s t : Server} → Step s t → Timing s t
unfolding run_first_heartbeat run_close_all shutdown
Step-Timing {s} (first_heartbeat_round ts _) =
    let t = tick (with_posted ts s) in
    let k = Handles-send_heartbeat (now s) t in
    let begun : Tells s t = Tells-quiet refl refl refl (omega arith) in
    Timing-trans begun (Tells-trans k.tells (Tells-start_heartbeat _)) (inr (inl refl))
      (Timing-trans k.tells (Tells-start_heartbeat _) k.timed (Timing-start_heartbeat _))
Step-Timing {s} (heartbeat_round ts _) = Timing-start_heartbeat (with_posted ts s)
Step-Timing {s} (client_round ts read closed _) = Timing-process read closed (with_posted ts s)
Step-Timing {s} (close_round ts _) =
    (Handles-close_sockets s.by_id (record (with_posted ts s) { run = false })).timed
Step-Timing (stop_round ts _) = inr (inl refl)
Step-Timing signals = inr (inl refl)
Step-Timing {s} (open_begins o os _) = (Handles-open_begin o.address s).timed
Step-Timing {s} (open_ends o os r _) =
    (Handles-open_end o.address o.message r (with_opening os s)).timed
Step-Timing {s} (read_ends a ec bytes) = (Handles-core (SameCore-on_read a ec bytes s)).timed
Step-Timing {s} (write_ends a ec n) = (Handles-core (SameCore-on_write a ec n s)).timed
Step-Timing {s} (close_ends a ec) = (Handles-core (SameCore-on_close a ec s)).timed

-- The time of shutdown is the reading number `at` of the clock, which was made in a step since whose end
-- there have been no clients.
pub record IsSince (clock : ℕ → ℕ) (start s : Server) : Type 0 where
  pub at : ℕ
  pub before : Server
  pub left : Server
  pub came : Reach (λ _. Unit {0}) start before
  pub sets : Step before left
  pub from : before.reads ≤ at
  pub upto : at < left.reads
  pub time : s.shutdown_time ≡ clock at
  pub idle : Reach (λ t. t.clients ≡ []) left s
  pub empty : s.clients ≡ []

abbrev IsTimed : (ℕ → ℕ) → Server → Server → Type 0
IsTimed clock start s = (s.shutdown_time ≡ 0) ⊎ IsSince clock start s

Step-IsTimed :
    (clock : ℕ → ℕ) (start s t : Server)
    → Reach (λ _. Unit {0}) start s
    → s.clock ≡ clock
    → IsTimed clock start s
    → Step s t
    → (t.shutdown_time ≢ 0 → t.clients ≡ [])
    → Timing s t
    → IsTimed clock start t
Step-IsTimed clock start s t r c h x k (inl z) = inl z
Step-IsTimed clock start s t r c (inl z) x k (inr (inl e)) = inl (e ∙ z)
Step-IsTimed clock start s t r c (inr h) x k (inr (inl e)) =
    elim (Bool-cases (t.shutdown_time == 0)) [
      | inl z ↦ inl (ground arith)
      | inr set ↦ inr (record {
        at = h.at;
        before = h.before;
        left = h.left;
        came = h.came;
        sets = h.sets;
        from = h.from;
        upto = h.upto;
        time = e ∙ h.time;
        idle = next h.idle h.empty x;
        empty = k (ground arith);
      })
    ]
Step-IsTimed clock start s t r c h x k (inr (inr (m, a, b, e))) =
    elim (Bool-cases (t.shutdown_time == 0)) [
      | inl z ↦ inl (ground arith)
      | inr set ↦ inr (record {
        at = m;
        before = s;
        left = t;
        came = r;
        sets = x;
        from = a;
        upto = b;
        time = e ∙ ap (λ (f : ℕ → ℕ). f m) c;
        idle = here;
        empty = k (ground arith);
      })
    ]

Reach-any : {P : Server → Type 0} {s t : Server} → Reach P s t → Reach (λ _. Unit {0}) s t
Reach-any here = here
Reach-any (next r _ x) = next (Reach-any r) tt x

Reach-clock : {P : Server → Type 0} {s t : Server} → Reach P s t → t.clock ≡ s.clock
Reach-clock here = refl
Reach-clock (next r _ x) = (Step-Tells x).clock ∙ Reach-clock r

Reach-IsTimed :
    {P : Server → Type 0} (pid : ℕ) (clock : ℕ → ℕ) {s : Server}
    → Reach P (init pid clock) s
    → IsTimed clock (init pid clock) s
unfolding init
Reach-IsTimed pid clock here = inl refl
Reach-IsTimed pid clock (next {t} {u} r p x) =
    Step-IsTimed clock (init pid clock) t u (Reach-any r) (Reach-clock r)
      (Reach-IsTimed pid clock r) x (Reach-IsIdle pid clock (next r p x)) (Step-Timing x)

since :
    (clock : ℕ → ℕ) (start s : Server)
    → s.shutdown_time ≢ 0
    → IsTimed clock start s
    → IsSince clock start s
since clock start s set (inl z) = absurd (set z)
since clock start s set (inr h) = h

-- Whatever is read, a round that begins the shutdown of a state that the process reached ends with no
-- clients, and with a time of shutdown that is a reading of the clock, made in a step since whose end
-- there have been no clients, and lies 60000 milliseconds or more, over uint64_t, before the last
-- reading of the clock.
pub idle_shutdown :
    {P : Server → Type 0} (pid : ℕ) (clock : ℕ → ℕ) {s : Server} (ts : List Task)
    (read : Option Message) (closed : List ℕ)
    → Reach P (init pid clock) s
    → Takes client_message s.posted ts
    → (process_client_message read closed (with_posted ts s)).posted ≡ close_all ∷ ts
    → IsExpired (process_client_message read closed (with_posted ts s))
      × IsSince clock (init pid clock) (process_client_message read closed (with_posted ts s))
idle_shutdown pid clock {s} ts read closed r t q =
    let u = process_client_message read closed (with_posted ts s) in
    let expired = begin-IsExpired pid clock ts read closed r t q in
    let k : Reach (λ _. Unit {0}) (init pid clock) u =
      next (Reach-any r) tt (client_round ts read closed t) in
    (expired, since clock (init pid clock) u expired.1 (Reach-IsTimed pid clock k))
