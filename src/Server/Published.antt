-- ===== src/Server/Published.antt =====
-- What the process publishes, over all of its steps (src/websocket_proxy.cpp).
use websocket_proxy.Base.{
  arith, ℕ, ◌≡◌, refl, subst, Option, none, some, List, ◌∙◌, nat_eq, false, All, All-append, leb,
  ◌==◌, if-case,
}
use websocket_proxy.Protocol.{Message, sub64}
use websocket_proxy.Server.State.{Server, now, tick, with_posted, with_opening, start_timer}
use websocket_proxy.Server.Clients.{start_heartbeat, check_heartbeats}
use websocket_proxy.Server.Requests.{Outcome, returned, thrown}
use websocket_proxy.Server.Loop.{
  dispatch, next_round, finish_round, idle_limit, handle_client_message, process_client_message,
  run_first_heartbeat, run_close_all, shutdown,
}
use websocket_proxy.Server.Steps.{
  Step, first_heartbeat_round, heartbeat_round, client_round, close_round, stop_round, signals,
  open_begins, open_ends, read_ends, write_ends, close_ends, Reach, here, next, init,
}
use websocket_proxy.Server.View.Requests.{state_of}
use websocket_proxy.Server.Telling.{Tells, Tells-quiet, Tells-one, Tells-as, Tells-trans, IsSound}
use websocket_proxy.Server.Core.{SameCore-on_read, SameCore-on_write, SameCore-on_close}
use websocket_proxy.Server.Handles.Clients.{Handles-check_heartbeats, Handles-send_heartbeat}
use websocket_proxy.Server.Handles.Requests.{
  Handles-dispatch, Handles-remove_closed_sockets, Handles-open_begin, Handles-open_end,
}
use websocket_proxy.Server.Lifetime.{Handles-close_sockets}

Tells-next_round : (s : Server) → Tells s (next_round s)
unfolding next_round
Tells-next_round s =
    if-case (Tells s) s.run _ _
      (λ _.
        if-case (Tells s) (s.shutdown_time == 0) _ _ (λ _. Tells-quiet refl refl refl (omega arith))
          (λ _.
            if-case (Tells s) (leb idle_limit (sub64 (now s) s.shutdown_time)) _ _
              (λ _. Tells-quiet refl refl refl (omega arith))
              (λ _. Tells-quiet refl refl refl (omega arith))))
      (λ _. Tells-quiet refl refl refl (omega arith))

Tells-finish_round :
    (closed : List ℕ) (s : Server) (o : Outcome)
    → Tells s (state_of o)
    → Tells s (finish_round closed o)
Tells-finish_round closed s (returned t) l =
    Tells-trans (Tells-trans l (Handles-remove_closed_sockets closed t).tells) (Tells-next_round _)
Tells-finish_round closed s (thrown t) l = l

Tells-process :
    (read : Option Message) (closed : List ℕ) (s : Server)
    → Tells s (process_client_message read closed s)
unfolding process_client_message handle_client_message
Tells-process none closed s =
    Tells-finish_round closed s (returned s) (Tells-quiet refl refl refl (omega arith))
Tells-process (some msg) closed s =
    Tells-finish_round closed s (dispatch msg msg.body s) (Handles-dispatch msg msg.body s).tells

pub Tells-start_heartbeat : (s : Server) → Tells s (start_heartbeat s)
unfolding start_heartbeat
Tells-start_heartbeat s =
    let l = (Handles-check_heartbeats s).tells in
    if-case (Tells s) (check_heartbeats s).1.run _ _ (λ _. Tells-as l refl refl refl (omega arith))
      (λ _. l)

-- A step adds sound effects to the log, and takes none away.
pub Step-Tells : {s t : Server} → Step s t → Tells s t
unfolding run_first_heartbeat run_close_all shutdown
Step-Tells {s} (first_heartbeat_round ts _) =
    Tells-trans
      (Tells-trans {t = tick (with_posted ts s)} (Tells-quiet refl refl refl (omega arith))
        (Handles-send_heartbeat (now s) (tick (with_posted ts s))).tells)
      (Tells-start_heartbeat _)
Step-Tells {s} (heartbeat_round ts _) =
    Tells-trans {t = with_posted ts s} (Tells-quiet refl refl refl (omega arith))
      (Tells-start_heartbeat (with_posted ts s))
Step-Tells {s} (client_round ts read closed _) =
    Tells-trans {t = with_posted ts s} (Tells-quiet refl refl refl (omega arith))
      (Tells-process read closed (with_posted ts s))
Step-Tells {s} (close_round ts _) =
    let t = record (with_posted ts s) { run = false } in
    Tells-as
      (Tells-trans {t = t} (Tells-quiet refl refl refl (omega arith))
        (Handles-close_sockets s.by_id t).tells)
      refl refl refl (omega arith)
Step-Tells {s} (stop_round ts _) = Tells-one {e = start_timer} refl refl refl (omega arith) tt
Step-Tells signals = Tells-quiet refl refl refl (omega arith)
Step-Tells {s} (open_begins o os _) = (Handles-open_begin o.address s).tells
Step-Tells {s} (open_ends o os r _) =
    Tells-trans {t = with_opening os s} (Tells-quiet refl refl refl (omega arith))
      (Handles-open_end o.address o.message r (with_opening os s)).tells
Step-Tells {s} (read_ends a ec bytes) = (SameCore-on_read a ec bytes s).tells
Step-Tells {s} (write_ends a ec n) = (SameCore-on_write a ec n s).tells
Step-Tells {s} (close_ends a ec) = (SameCore-on_close a ec s).tells

-- The log of a reached state, and its process id.
pub record IsTold (pid : ℕ) (s : Server) : Type 0 where
  pub same : s.pid ≡ pid
  pub sound : All (IsSound pid) s.effects

pub IsTold-Step : (pid : ℕ) (s t : Server) → Tells s t → IsTold pid s → IsTold pid t
IsTold-Step pid s t l h = record {
  same = l.pid ∙ h.same;
  sound = rw l.effects (
      All-append (IsSound pid) l.new s.effects (subst (λ p. All (IsSound p) l.new) h.same l.sound)
        h.sound);
}

Reach-IsTold :
    {P : Server → Type 0} (pid : ℕ) (clock : ℕ → ℕ) {s : Server}
    → Reach P (init pid clock) s
    → IsTold pid s
unfolding init
Reach-IsTold pid clock here = record { same = refl; sound = tt }
Reach-IsTold pid clock (next {t} {u} r _ step) =
    IsTold-Step pid t u (Step-Tells step) (Reach-IsTold pid clock r)

-- Every message that the process has published, in any state that it reaches, names the process, is one
-- of those that clients read or a heartbeat, has the bytes that its length says, and was given as many
-- bytes as its layout takes, over uint32_t.
pub Reach-IsSound :
    {P : Server → Type 0} (pid : ℕ) (clock : ℕ → ℕ) {s : Server}
    → Reach P (init pid clock) s
    → All (IsSound pid) s.effects
Reach-IsSound pid clock r = (Reach-IsTold pid clock r).sound
