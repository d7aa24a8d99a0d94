-- ===== src/World/Told.antt =====
-- What holds in every world that is reached (src/websocket_proxy.cpp,
-- include/websocket_proxy/websocket_proxy_client.h).
use websocket_proxy.Base.{
  ℕ, ◌≡◌, refl, ap, subst, ◌∙◌, Option, none, some, inl, inr, Exists, Exists-append, Exists-map,
  Exists-All, if-case, ◌==◌, ==_iff,
}
use websocket_proxy.Protocol.{Message, Body}
use websocket_proxy.Server.State.{
  Server, Effect, publish, publish_closed, respond, spawn, async_read, async_write, async_close,
  set_level, start_timer,
}
use websocket_proxy.Server.Telling.{Tells, IsNotice, IsSound, IsWhole}
use websocket_proxy.Server.Published.{Step-Tells, IsTold, IsTold-Step}
use websocket_proxy.Server.Steps.{init}
use websocket_proxy.Client.State.{Client}
use websocket_proxy.Client.Callbacks.{told}
use websocket_proxy.Client.Sent.{HasSent}
use websocket_proxy.Client.Sending.{Sends-Act}
use websocket_proxy.Client.Steps.{Act, act_read}
use websocket_proxy.Client.Acting.{Act-cases}
use websocket_proxy.World.{
  World, Publishes, HasPublished, WhenRead, set_at, Turn, server_turn, client_turn, Start, world,
  Turns, at_first, turn_by,
}
use websocket_proxy.World.Backed.{
  AreBacked, AreBacked-map, HasTold, IsGood, Quiet-HasTold, work_round-HasTold,
}

set_at-all :
    {A : Type 0} (P : ℕ → A → Type 0) (k : ℕ) (x : A) (f : ℕ → A)
    → P k x
    → ((j : ℕ) → P j (f j))
    → (j : ℕ) → P j (set_at k x f j)
set_at-all P k x f p q j =
    if-case (P j) (k == j) x (f j) (λ e. subst (λ i. P i x) ((==_iff k j).0 e) p) (λ _. q j)

Publishes-map :
    (P Q : Message → Type 0) (e : Effect)
    → ((msg : Message) → P msg → Q msg)
    → Publishes P e
    → Publishes Q e
Publishes-map P Q (publish n msg) k h = k msg h
Publishes-map P Q (publish_closed _) k h = h
Publishes-map P Q (respond _) k h = h
Publishes-map P Q (spawn _) k h = h
Publishes-map P Q (async_read _) k h = h
Publishes-map P Q (async_write _ _) k h = h
Publishes-map P Q (async_close _) k h = h
Publishes-map P Q (set_level _) k h = h
Publishes-map P Q start_timer k h = h

Publishes-IsNotice :
    (P : Message → Type 0) (pid : ℕ) (e : Effect)
    → Publishes P e
    → IsSound pid e
    → (n : ℕ) × (msg : Message) × (P msg × IsNotice pid n msg)
Publishes-IsNotice P pid (publish n msg) h s = (n, msg, (h, s))
Publishes-IsNotice P pid (publish_closed _) h s = absurd h
Publishes-IsNotice P pid (respond _) h s = absurd h
Publishes-IsNotice P pid (spawn _) h s = absurd h
Publishes-IsNotice P pid (async_read _) h s = absurd h
Publishes-IsNotice P pid (async_write _ _) h s = absurd h
Publishes-IsNotice P pid (async_close _) h s = absurd h
Publishes-IsNotice P pid (set_level _) h s = absurd h
Publishes-IsNotice P pid start_timer h s = absurd h

-- A body has been published.
abbrev pub IsOut : (ℕ → Server) → Body → Type 0
IsOut servers b = HasPublished (λ msg. msg.body ≡ b) servers

-- What has been published stays so.
IsOut-set_at :
    (k : ℕ) (t : Server) (servers : ℕ → Server) (b : Body)
    → Tells (servers k) t
    → IsOut servers b
    → IsOut (set_at k t servers) b
IsOut-set_at k t servers b l (j, h) = (
  j,
  let Out : Effect → Type 0 = Publishes (λ msg. msg.body ≡ b) in
      set_at-all (λ i s. Exists Out (servers i).effects → Exists Out s.effects) k t servers
        (λ e. rw l.effects (Exists-append Out l.new (servers k).effects e)) (λ i e. e) j h,
)

record IsKept (st : Start) (w : World) : Type 0 where
  servers : (k : ℕ) → IsTold (st.server_pid k) (w.servers k)
  pids : (n : ℕ) → (w.clients n).pid ≡ st.client_pid n
  sent : (n : ℕ) → HasSent (w.clients n)
  told : (n : ℕ) → HasTold (IsOut w.servers) (w.clients n)

-- What a client reads is a message that one of the servers made.
read-IsGood :
    (st : Start) (w : World) (read : Option Message)
    → IsKept st w
    → WhenRead (λ msg. HasPublished (λ m. m ≡ msg) w.servers) read
    → IsGood (IsOut w.servers) read
read-IsGood st w none h r = tt
read-IsGood st w (some msg) h (k, e) =
    let (x, (p, s)) =
      Exists-All (Publishes (λ m. m ≡ msg)) (IsSound (st.server_pid k)) (w.servers k).effects
        (h.servers k).sound e in
    let (n, m, (q, notice)) = Publishes-IsNotice (λ m. m ≡ msg) (st.server_pid k) x p s in
    (
      (
        k,
        Exists-map _ (Publishes (λ m. m.body ≡ msg.body)) (w.servers k).effects
            (λ x. Publishes-map _ _ x (λ m. ap (λ (y : Message). y.body))) e,
      ),
      subst (λ (y : Message). IsWhole y.body) q notice.whole,
    )

Act-HasTold :
    (P : Body → Type 0) {c d : Client} (act : Act c d)
    → IsGood P (act_read act)
    → HasTold P c
    → HasTold P d
Act-HasTold P {c} act g h = elim (Act-cases act) [
  | inl q ↦ Quiet-HasTold P q h
  | inr e ↦ rw e (work_round-HasTold P (act_read act) c g h)
]

Turn-IsKept : (st : Start) {w v : World} → Turn w v → IsKept st w → IsKept st v
Turn-IsKept st {w} (server_turn k {t} step _) h =
    let l = Step-Tells step in
    record {
      servers =
          set_at-all (λ j s. IsTold (st.server_pid j) s) k t w.servers
            (IsTold-Step (st.server_pid k) (w.servers k) t l (h.servers k)) h.servers;
      pids = h.pids;
      sent = h.sent;
      told = λ n.
          AreBacked-map (IsOut w.servers) (IsOut (set_at k t w.servers)) (w.clients n).pid _
            (λ b. IsOut-set_at k t w.servers b l) (h.told n);
    }
Turn-IsKept st {w} (client_turn n {d} act r) h =
    let k = Sends-Act act in
    record {
      servers = h.servers;
      pids = set_at-all (λ j c. c.pid ≡ st.client_pid j) n d w.clients (k.pid ∙ h.pids n) h.pids;
      sent = set_at-all (λ j c. HasSent c) n d w.clients (k.sent (h.sent n)) h.sent;
      told =
          set_at-all (λ j c. HasTold (IsOut w.servers) c) n d w.clients
            (Act-HasTold (IsOut w.servers) act (read-IsGood st w (act_read act) h r) (h.told n))
            h.told;
    }

Turns-IsKept : (st : Start) {w : World} → Turns (world st) w → IsKept st w
unfolding init told
Turns-IsKept st at_first = record {
  servers = λ k. record { same = refl; sound = tt };
  pids = λ n. refl;
  sent = λ n. tt;
  told = λ n. tt;
}
Turns-IsKept st (turn_by r t) = Turn-IsKept st t (Turns-IsKept st r)

-- However many servers and clients run, in whatever order they take their steps, and whatever messages
-- the queues lose, repeat or delay, what the user of a client is told has been published by one of the
-- servers: data and errors with exactly those bytes, an opening for that client's process, and a close,
-- unless the client has told of the loss of a server before.
pub Turns-AreBacked :
    (st : Start) {w : World}
    → Turns (world st) w
    → (n : ℕ) → AreBacked (IsOut w.servers) (st.client_pid n) (told (w.clients n).calls)
Turns-AreBacked st {w} r n =
    let h = Turns-IsKept st r in
    subst (λ p. AreBacked (IsOut w.servers) p (told (w.clients n).calls)) (h.pids n) (h.told n)
