-- ===== src/Client/Silence.antt =====
-- What a client does when its server is silent (include/websocket_proxy/websocket_proxy_client.h,
-- `doWork`).
use websocket_proxy.Base.{
  ℕ, zero, suc, ◌+◌, ◌≤◌, ◌<◌, ◌≡◌, ◌≢◌, refl, ap, sym, ◌∙◌, Bool, true, false, not, ◌&&◌, List, [],
  ◌∷◌, if-case, ltb, ◌==◌, arith, Option, none, Bool-cases, inl, inr,
}
use websocket_proxy.Protocol.{pending, Message, heartbeat_timeout, sub64, heartbeat_interval}
use websocket_proxy.Client.State.{
  Call, Client, call, send_request, client_now, client_heartbeat, websocket_closed,
  server_disconnected,
}
use websocket_proxy.Client.Waiting.{beat}
use websocket_proxy.Client.Callbacks.{told}
use websocket_proxy.Client.Halting.Loops.{Passes, Beats-beat, before}
use websocket_proxy.Client.Worker.{
  lose_server, close_all_websockets, is_silent, work_idle, work_round, do_work,
}

-- What the user is told when the sockets close, one after the other.
abbrev pub closings : List ℕ → List Call → List Call
closings [] cs = cs
closings (id ∷ ids) cs = closings ids (websocket_closed id ∷ cs)

-- The client has given up its server and all of its sockets, and has told of it and of each socket.
pub record IsLost (c d : Client) : Type 0 where
  pub server : d.server_pid ≡ 0
  pub websockets : d.websockets ≡ []
  pub told : told d.calls ≡ closings c.websockets (server_disconnected ∷ told c.calls)

close_all-IsLost :
    (ids : List ℕ) (c : Client)
    → ((close_all_websockets ids c).server_pid ≡ c.server_pid)
      × (told (close_all_websockets ids c).calls ≡ closings ids (told c.calls))
unfolding close_all_websockets told
close_all-IsLost [] c = (refl, refl)
close_all-IsLost (id ∷ ids) c = close_all-IsLost ids (call (websocket_closed id) c)

lose_server-IsLost : (c : Client) → IsLost c (lose_server c)
unfolding lose_server told
lose_server-IsLost c =
    let h =
      close_all-IsLost c.websockets (call server_disconnected (record c { server_pid = 0 })) in
    record { server = h.0; websockets = refl; told = h.1 }

-- The client has its server and its sockets as before, and has told nothing.
pub record IsHeard (c d : Client) : Type 0 where
  pub server : d.server_pid ≡ c.server_pid
  pub websockets : d.websockets ≡ c.websockets
  pub told : told d.calls ≡ told c.calls

IsHeard-refl : (c : Client) → IsHeard c c
IsHeard-refl c = record { server = refl; websockets = refl; told = refl }

IsHeard-trans : {c d e : Client} → IsHeard c d → IsHeard d e → IsHeard c e
IsHeard-trans p q = record {
  server = q.server ∙ p.server;
  websockets = q.websockets ∙ p.websockets;
  told = q.told ∙ p.told;
}

IsLost-heard : {c d e : Client} → IsHeard c d → IsLost d e → IsLost c e
IsLost-heard p q = record {
  server = q.server;
  websockets = q.websockets;
  told = rw (← p.websockets, ← p.told) q.told;
}

-- A heartbeat leaves them so, and the time of the server's last message.
record SameServer (c d : Client) : Type 0 where
  heard : IsHeard c d
  last : d.last_server_heartbeat_time ≡ c.last_server_heartbeat_time
  run : d.run ≡ c.run

beat-SameServer : (c : Client) → SameServer c (beat c)
unfolding client_heartbeat send_request told
beat-SameServer c =
    if-case (λ (r : Bool × Client). SameServer c r.1)
      (not (c.server_pid == 0)
        && ltb heartbeat_interval (sub64 (client_now c) c.last_heartbeat_time))
      _ _
      (λ _. record {
        heard = record { server = refl; websockets = refl; told = refl };
        last = refl;
        run = refl;
      })
      (λ _. record {
        heard = record { server = refl; websockets = refl; told = refl };
        last = refl;
        run = refl;
      })

-- Rounds of the worker that find no message.
abbrev pub no_messages : ℕ → List (Option Message)
no_messages zero = []
no_messages (suc n) = none ∷ no_messages n

-- For `rounds` rounds the client keeps its server; in the round after them it finds that the time of the
-- last message lies more than 15000 milliseconds back, and gives the server up.
pub record GivesUp (c : Client) : Type 0 where
  pub rounds : ℕ
  pub earlier : (n : ℕ) → n ≤ rounds → IsHeard c (do_work (no_messages n) c)
  pub late :
      (r : ℕ) × (c.reads ≤ r)
      × (15000 < sub64 (c.clock r) c.last_server_heartbeat_time)
      × (r ≡ (do_work (no_messages rounds) c).reads)
  pub lost : IsLost c (do_work (no_messages (suc rounds)) c)

-- A client that has a server, from which it has read, and whose worker runs.
record IsWaiting (c : Client) : Type 0 where
  runs : c.run ≡ true
  server : c.server_pid ≢ 0
  heard : c.last_server_heartbeat_time ≢ 0

is_late : Client → Bool
is_late c = ltb 15000 (sub64 (client_now c) c.last_server_heartbeat_time)

silent-is_late :
    (c d : Client)
    → c.last_server_heartbeat_time ≢ 0
    → d.last_server_heartbeat_time ≡ c.last_server_heartbeat_time
    → is_silent (client_now c) d ≡ is_late c
unfolding is_late
silent-is_late c d set e =
    let set' : c.last_server_heartbeat_time == 0 ≡ false = ground arith in
    ap (λ l. not (l == 0) && ltb heartbeat_timeout (sub64 (client_now c) l)) e ∙ rw set' refl

module _ (c : Client) (w : IsWaiting c) where
  connected : c.server_pid == 0 ≡ false
  connected = let h = w.server in ground (arith, h)

  same_test : is_silent (client_now c) (beat c) ≡ is_late c
  same_test = silent-is_late c (beat c) w.heard (beat-SameServer c).last

  late_round : is_late c ≡ true → work_round none c ≡ lose_server (beat c)
  unfolding work_round work_idle
  late_round late = rw (connected, same_test, late) refl

  early_round : is_late c ≡ false → work_round none c ≡ beat c
  unfolding work_round work_idle
  early_round early = rw (connected, same_test, early) refl

  one_round :
      (n : ℕ) → do_work (no_messages (suc n)) c ≡ do_work (no_messages n) (work_round none c)
  unfolding do_work
  one_round n = rw w.runs refl

  beat-IsWaiting : IsWaiting (beat c)
  beat-IsWaiting =
      let s = beat-SameServer c in
      record {
        runs = s.run ∙ w.runs;
        server = λ z. w.server (sym s.heard.server ∙ z);
        heard = λ z. w.heard (sym s.last ∙ z);
      }

  GivesUp-now : is_late c ≡ true → GivesUp c
  unfolding do_work is_late
  GivesUp-now late = record {
    rounds = 0;
    earlier = at_once;
    late = (c.reads, omega arith, ground arith, refl);
    lost =
        rw (one_round 0, late_round late)
          (IsLost-heard (beat-SameServer c).heard (lose_server-IsLost (beat c)));
  }
    where
      at_once : (n : ℕ) → n ≤ 0 → IsHeard c (do_work (no_messages n) c)
      at_once zero h = IsHeard-refl c
      at_once (suc n) h = absurd (omega arith)

  GivesUp-later : is_late c ≡ false → GivesUp (beat c) → GivesUp c
  unfolding do_work
  GivesUp-later early h =
      let s = beat-SameServer c in
      let b = Beats-beat c in
      let (r, after, late, at) = h.late in
      record {
        rounds = suc h.rounds;
        earlier = earlier;
        late = (
          r,
          omega (arith, b.once, after),
          (rw (b.clock, s.last) at late),
          rw (one_round h.rounds, early_round early) at,
        );
        lost = rw (one_round (suc h.rounds), early_round early) (IsLost-heard s.heard h.lost);
      }
    where
      earlier : (n : ℕ) → n ≤ suc h.rounds → IsHeard c (do_work (no_messages n) c)
      earlier zero l = IsHeard-refl c
      earlier (suc n) l =
          rw (one_round n, early_round early)
            (IsHeard-trans (beat-SameServer c).heard (h.earlier n (omega arith)))

GivesUp-unless : (c : Client) (w : IsWaiting c) → (is_late c ≡ false → GivesUp (beat c)) → GivesUp c
GivesUp-unless c w go = elim (Bool-cases (is_late c)) [
  | inl late ↦ GivesUp-now c w late
  | inr early ↦ GivesUp-later c w early (go early)
]

-- A round whose reading is not late reads the clock before the two readings that are.
two_more :
    (at last : ℕ) (clock : ℕ → ℕ)
    → 15000 < sub64 (clock at) last
    → 15000 < sub64 (clock (at + 1)) last
    → (c : Client) → c.clock ≡ clock
    → c.last_server_heartbeat_time ≡ last
    → c.reads ≤ at + 1
    → is_late c ≡ false
    → c.reads + 2 ≤ at + 1
unfolding is_late
two_more at last clock l l' c e k h early =
    before clock 15000 last at (λ _. pending) l l' c.reads h (rw (e, k) at early)

gives_up :
    (bound at last : ℕ) (clock : ℕ → ℕ)
    → 15000 < sub64 (clock at) last
    → 15000 < sub64 (clock (at + 1)) last
    → (c : Client) → IsWaiting c
    → c.clock ≡ clock
    → c.last_server_heartbeat_time ≡ last
    → c.reads ≤ at + 1
    → at + 1 ≤ c.reads + bound
    → GivesUp c
gives_up zero at last clock l l' c w e k h n =
    GivesUp-unless c w λ early. absurd (omega (arith, two_more at last clock l l' c e k h early))
gives_up (suc bound) at last clock l l' c w e k h n = GivesUp-unless c w λ early.
    let b = Beats-beat c in
    let m = two_more at last clock l l' c e k h early in
    gives_up bound at last clock l l' (beat c) (beat-IsWaiting c w) (b.clock ∙ e)
      ((beat-SameServer c).last ∙ k) (omega (arith, b.twice, m)) (omega (arith, b.once))

-- If the clock passes the time at which the last message was read by more than 15000 milliseconds, over
-- uint64_t, for two readings on end, then a connected client that reads no message for long enough gives
-- up its server: up to some round it keeps the server and its sockets and tells its user nothing, and in
-- the next one, which reads a time that is more than 15000 milliseconds later, it tells of the loss of
-- the server and of the close of each socket, and has neither any more.
pub work_round-silent :
    (c : Client)
    → c.run ≡ true
    → c.server_pid ≢ 0
    → c.last_server_heartbeat_time ≢ 0
    → Passes c.clock 15000 c.last_server_heartbeat_time c.reads
    → GivesUp c
work_round-silent c runs known set p =
    gives_up (p.at + 1) p.at c.last_server_heartbeat_time c.clock p.late p.still_late c
      (record { runs = runs; server = known; heard = set }) refl refl (omega (arith, p.later))
      (omega arith)
