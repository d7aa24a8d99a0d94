-- ===== src/Client/Quiet/Calls.antt =====
-- What waits and what connects leaves the sockets alone, and so does each call of the user's.
use websocket_proxy.Base.{
  ◌||◌, ◌≡◌, subst, ℕ, zero, suc, refl, Bool, not, if-case, ltb, ◌==◌, length,
}
use websocket_proxy.Protocol.{Status, RegisterMessage, register}
use websocket_proxy.Client.State.{Client, client_now, client_tick, is_pending, is_failed}
use websocket_proxy.Client.Waiting.{
  Run, finished, is_late, is_early, beat, wait_loop, wait_for_response, spawn_loop, ready_loop,
  wait_for_server_ready,
}
use websocket_proxy.Client.Connecting.{
  Reply, Setup, strcpy_s, c_str, open_queue, launch, attach, spawn_proxy_server, registered,
  register_client, register_size, connect,
}
use websocket_proxy.Client.Quiet.{
  Each, Each-bind, Each-if, Each-map, Quiet, Quiet-refl, Quiet-trans, Quiet-same, Quiet-tick,
  Quiet-send_request, Quiet-client_heartbeat,
}

-- The state stands behind what a call returns.
abbrev pub Behind {ℓ} : {A : Type ℓ} → Client → A × Client → Type 0
Behind c r = Quiet c r.1

abbrev pub Waits : Client → Bool × ℕ × Client → Type 0
Waits c r = Quiet c r.2

abbrev pub QuietRun {ℓ} : {A : Type ℓ} → Client → Run (A × Client) → Type 0
QuietRun c r = Each (Behind c) r

abbrev pub QuietWait : Client → Run (Bool × ℕ × Client) → Type 0
QuietWait c r = Each (Waits c) r

-- A call that returns, of one that is quiet.
pub returned-Quiet :
    {A : Type 0} {c d : Client} (r : Run (A × Client)) (a : A)
    → Each (Behind c) r
    → r ≡ finished (a, d)
    → Quiet c d
returned-Quiet {c} r a q e = subst (Each (Behind c)) e q

Quiet-beat : (c : Client) → Quiet c (beat c)
Quiet-beat c = Quiet-trans (Quiet-tick c) (Quiet-client_heartbeat (client_now c) (client_tick c))

Quiet-wait_loop :
    (fuel start timeout : ℕ) (status : ℕ → Status) (k : ℕ) (c : Client)
    → QuietWait c (wait_loop fuel start timeout status k c)
unfolding wait_loop
Quiet-wait_loop zero start timeout status k c = tt
Quiet-wait_loop (suc fuel) start timeout status k c =
    Each-if (Waits c) (is_pending (status k)) _ _
      (Each-if (Waits c) (is_late start timeout c) _ _ (Quiet-tick c) (
        Each-map (Waits (beat c)) (Waits c) _ (λ r q. Quiet-trans (Quiet-beat c) q)
          (Quiet-wait_loop fuel start timeout status (suc k) (beat c))))
      (Quiet-refl c)

pub Quiet-wait_for_response :
    (fuel timeout : ℕ) (status : ℕ → Status) (c : Client)
    → QuietWait c (wait_for_response fuel timeout status c)
unfolding wait_for_response
Quiet-wait_for_response fuel timeout status c =
    Each-map (Waits (client_tick c)) (Waits c) _ (λ r q. Quiet-trans (Quiet-tick c) q)
      (Quiet-wait_loop fuel (client_now c) timeout status 0 (client_tick c))

Quiet-spawn_loop :
    (fuel start : ℕ) (running : ℕ → Bool) (k : ℕ) (c : Client)
    → Each (Quiet c) (spawn_loop fuel start running k c)
unfolding spawn_loop
Quiet-spawn_loop zero start running k c = tt
Quiet-spawn_loop (suc fuel) start running k c =
    Each-if (Quiet c) (not (running k)) _ _
      (Each-if (Quiet c) (is_early start c) _ _
        (Each-map (Quiet (client_tick c)) (Quiet c) _ (λ r q. Quiet-trans (Quiet-tick c) q)
          (Quiet-spawn_loop fuel start running (suc k) (client_tick c)))
        (Quiet-tick c))
      (Quiet-refl c)

Quiet-ready_loop :
    (fuel start : ℕ) (ready : ℕ → Bool) (k : ℕ) (c : Client)
    → QuietRun c (ready_loop fuel start ready k c)
unfolding ready_loop
Quiet-ready_loop zero start ready k c = tt
Quiet-ready_loop (suc fuel) start ready k c =
    Each-if (Behind c) (is_early start c) _ _
      (Each-if (Behind c) (ready k) _ _ (Quiet-tick c) (
        Each-map (Behind (client_tick c)) (Behind c) _ (λ r q. Quiet-trans (Quiet-tick c) q)
          (Quiet-ready_loop fuel start ready (suc k) (client_tick c))))
      (Quiet-tick c)

pub Quiet-ready :
    (fuel : ℕ) (ready : ℕ → Bool) (c : Client) → QuietRun c (wait_for_server_ready fuel ready c)
unfolding wait_for_server_ready
Quiet-ready fuel ready c =
    Each-map (Behind (client_tick c)) (Behind c) _ (λ r q. Quiet-trans (Quiet-tick c) q)
      (Quiet-ready_loop fuel (client_now c) ready 0 (client_tick c))

pub Quiet-launch : (fuel : ℕ) (env : Setup) (c : Client) → QuietRun c (launch fuel env c)
unfolding launch
Quiet-launch fuel env c = Each-if (Behind c) env.is_running _ _ (Quiet-refl c) (
    Each-if (Behind c) env.is_launched _ _
      (Each-bind (Quiet (client_tick c)) (Behind c) _ _
        (Quiet-spawn_loop fuel (client_now c) env.running 0 (client_tick c))
        (λ d q. Quiet-trans (Quiet-tick c) q))
      (Quiet-refl c))

Quiet-attach : (env : Setup) (c : Client) → Quiet c (attach env c).1
unfolding attach
Quiet-attach env c =
    if-case (λ (r : Bool × Client). Quiet c r.1)
      (open_queue 5 0 env.has_server_queue || c.has_queue) _ _
      (λ _.
        if-case (λ (r : Bool × Client). Quiet c r.1) env.has_client_queue _ _
          (λ _. Quiet-same refl refl refl refl refl) (λ _. Quiet-same refl refl refl refl refl))
      (λ _. Quiet-refl c)

pub Quiet-spawn_proxy_server :
    (fuel : ℕ) (env : Setup) (c : Client) → QuietRun c (spawn_proxy_server fuel env c)
unfolding spawn_proxy_server
Quiet-spawn_proxy_server fuel env c =
    Each-bind (Behind c) (Behind c) _ _ (Quiet-launch fuel env c) λ (launched, d) q.
      if-case (λ (r : Bool × Client). Quiet c r.1) launched _ _
        (λ _. Quiet-trans q (Quiet-attach env d)) (λ _. q)

Quiet-registered :
    (reply : Reply RegisterMessage) (k : ℕ) (c : Client) → Quiet c (registered reply k c).1
unfolding registered
Quiet-registered reply k c =
    if-case (λ (r : Bool × Client). Quiet c r.1) (is_failed (reply.status (suc k))) _ _
      (λ _. Quiet-same refl refl refl refl refl) (λ _. Quiet-same refl refl refl refl refl)

pub Quiet-register_client :
    (fuel : ℕ) (reply : Reply RegisterMessage) (c : Client)
    → QuietRun c (register_client fuel reply c)
unfolding register_client
Quiet-register_client fuel reply c =
    Each-bind (λ _. Unit {0}) (Behind c) (strcpy_s 31 c.name) _
      (Each-if (λ _. Unit {0}) (ltb (length (c_str c.name)) 31) _ _ tt tt)
      λ name _.
        Each-bind (Waits c) (Behind c) _ _
          (Each-map (Waits _) (Waits c) _
            (λ r q. Quiet-trans (Quiet-send_request register_size 0 (register _) c refl refl) q)
            (Quiet-wait_for_response fuel 20000 reply.status _))
          λ (answered, k, e) q.
            if-case (λ (r : Bool × Client). Quiet c r.1) answered _ _
              (λ _. Quiet-trans q (Quiet-registered reply k e)) (λ _. q)

pub Quiet-connect : (fuel : ℕ) (env : Setup) (c : Client) → QuietRun c (connect fuel env c)
unfolding connect
Quiet-connect fuel env c =
    Each-bind (Behind c) (Behind c) _ _ (Quiet-spawn_proxy_server fuel env c) λ (spawned, d) q.
      Each-if (Behind c) spawned _ _
        (Each-if (Behind c) (d.server_queue_index == 0) _ _
          (Each-bind (Behind d) (Behind c) _ _ (Quiet-ready fuel env.ready d) λ (ready, e) p.
            Each-if (Behind c) ready _ _
              (Each-map (Behind e) (Behind c) _ (λ r k. Quiet-trans q (Quiet-trans p k))
                (Quiet-register_client fuel env.reply e))
              (Quiet-trans q p))
          (Each-map (Behind d) (Behind c) _ (λ r k. Quiet-trans q k)
            (Quiet-register_client fuel env.reply d)))
        q
