-- ===== src/Server/Ending.antt =====
-- The process ends once its last client has left (src/websocket_proxy.cpp, `processClientMessage`,
-- `shutdown`).
use websocket_proxy.Base.{
  ℕ, zero, suc, ◌+◌, ◌≤◌, ◌≡◌, ◌≢◌, refl, sym, subst, true, false, none, List, [], ◌∷◌, inl, inr,
  nat_eq, ◌==◌, leb, Bool-cases, Takes, first, arith,
}
use websocket_proxy.Protocol.{sub64}
use websocket_proxy.Server.State.{
  Server, Task, client_message, close_all, post, with_posted, now, tick,
}
use websocket_proxy.Server.Loop.{
  idle_limit, next_round, process_client_message, remove_closed_sockets, run_close_all,
}
use websocket_proxy.Server.Steps.{Step, close_round, Reach, init}
use websocket_proxy.Server.Lifetime.{Handles-close_sockets, Reach-IsIdle}

-- Rounds of `processClientMessage` that find no message and no closed socket.
pub data Idles (ts : List Task) : Server → Server → Type 0 where
  idle_end : {s : Server} → Idles ts s s
  idle_round :
      {s u : Server}
      → Takes client_message s.posted ts
      → Idles ts (process_client_message none [] (with_posted ts s)) u
      → Idles ts s u

-- The last of these rounds begins the shutdown, which stops the process and forgets its sockets.
pub record IsEnding (ts : List Task) (s : Server) : Type 0 where
  pub last : Server
  pub idle : Idles ts s last
  pub closes : Step last (run_close_all (with_posted ts last))
  pub stopped : (run_close_all (with_posted ts last)).run ≡ false
  pub forgotten : (run_close_all (with_posted ts last)).by_id ≡ []

at_head : (x : Task) (ts : List Task) (s : Server) → s.posted ≡ x ∷ ts → Takes x s.posted ts
at_head x ts s e = subst (λ xs. Takes x xs ts) (sym e) first

closing-IsEnding : (ts : List Task) (t : Server) → t.posted ≡ close_all ∷ ts → IsEnding ts t
unfolding run_close_all
closing-IsEnding ts t p = record {
  last = t;
  idle = idle_end;
  closes = close_round ts (at_head close_all ts t p);
  stopped = (Handles-close_sockets t.by_id (record (with_posted ts t) { run = false })).run;
  forgotten = refl;
}

IsEnding-idle_round :
    {ts : List Task} {s : Server} (t : Server)
    → s.posted ≡ client_message ∷ ts
    → process_client_message none [] (with_posted ts s) ≡ t
    → IsEnding ts t
    → IsEnding ts s
IsEnding-idle_round {ts} {s} t p e h = record {
  last = h.last;
  idle = idle_round (at_head client_message ts s p) (subst (λ x. Idles ts x h.last) (sym e) h.idle);
  closes = h.closes;
  stopped = h.stopped;
  forgotten = h.forgotten;
}

-- What such a round does.
module _ (ts : List Task) (s : Server) (running : s.run ≡ true)
    (set : (s.shutdown_time == 0) ≡ false) where
  late_round :
      leb idle_limit (sub64 (now s) s.shutdown_time) ≡ true
      → process_client_message none [] (with_posted ts s) ≡ post close_all (tick (with_posted ts s))
  unfolding process_client_message remove_closed_sockets next_round
  late_round l = rw (next_round, running, set, l) refl

  early_round :
      leb idle_limit (sub64 (now s) s.shutdown_time) ≡ false
      → process_client_message none [] (with_posted ts s)
        ≡ post client_message (tick (with_posted ts s))
  unfolding process_client_message remove_closed_sockets next_round
  early_round l = rw (next_round, running, set, l) refl

-- A reading that is not late enough comes before one that is.
comes_before :
    (at : ℕ) (s : Server)
    → s.reads ≤ at
    → idle_limit ≤ sub64 (s.clock at) s.shutdown_time
    → leb idle_limit (sub64 (now s) s.shutdown_time) ≡ false
    → s.reads + 1 ≤ at
comes_before at s h late early = elim (Bool-cases (s.reads == at)) [
  | inl same ↦
      let q : s.reads ≡ at = ground arith in
      let l : idle_limit ≤ sub64 (now s) s.shutdown_time = rw q late in absurd (ground arith)
  | inr other ↦ ground arith
]

-- A round begins the shutdown or reads the clock before the time has come.
ends_unless :
    (at : ℕ) (ts : List Task) (s : Server)
    → s.posted ≡ client_message ∷ ts
    → s.run ≡ true
    → (s.shutdown_time == 0) ≡ false
    → s.reads ≤ at
    → idle_limit ≤ sub64 (s.clock at) s.shutdown_time
    → (s.reads + 1 ≤ at → IsEnding ts (post client_message (tick (with_posted ts s))))
    → IsEnding ts s
ends_unless at ts s p r z h late go =
    elim (Bool-cases (leb idle_limit (sub64 (now s) s.shutdown_time))) [
      | inl over ↦
          IsEnding-idle_round (post close_all (tick (with_posted ts s))) p
            (late_round ts s r z over) (closing-IsEnding ts _ refl)
      | inr early ↦
          IsEnding-idle_round (post client_message (tick (with_posted ts s))) p
            (early_round ts s r z early) (go (comes_before at s h late early))
    ]

-- Reading number `at` of the clock is late enough, and `bound` readings away at most.
ends_within :
    (bound at : ℕ) (ts : List Task) (s : Server)
    → s.posted ≡ client_message ∷ ts
    → s.run ≡ true
    → (s.shutdown_time == 0) ≡ false
    → s.reads ≤ at
    → at ≤ s.reads + bound
    → idle_limit ≤ sub64 (s.clock at) s.shutdown_time
    → IsEnding ts s
ends_within zero at ts s p r z h l late =
    ends_unless at ts s p r z h late λ k. absurd (omega (arith, k))
ends_within (suc bound) at ts s p r z h l late = ends_unless at ts s p r z h late λ k.
    ends_within bound at ts (post client_message (tick (with_posted ts s))) refl r z
      (omega (arith, k)) (omega arith) late

-- A server that has reached a state in which it runs, has set its time of shutdown and waits for
-- messages has no clients, and comes to stop itself and to forget its sockets, by empty rounds alone, if
-- some later reading of the clock lies 60000 milliseconds or more, over uint64_t, behind that time.
pub idle_ends :
    {P : Server → Type 0} (pid : ℕ) (clock : ℕ → ℕ) (s : Server) (ts : List Task) (at : ℕ)
    → Reach P (init pid clock) s
    → s.posted ≡ client_message ∷ ts
    → s.run ≡ true
    → s.shutdown_time ≢ 0
    → s.reads ≤ at
    → 60000 ≤ sub64 (s.clock at) s.shutdown_time
    → (s.clients ≡ []) × IsEnding ts s
idle_ends pid clock s ts at reached p r z h late = (
  Reach-IsIdle pid clock reached z,
  ends_within at at ts s p r (ground arith) h (omega arith) late,
)
