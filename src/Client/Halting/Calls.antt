-- ===== src/Client/Halting/Calls.antt =====
-- The calls of a client that wait, over a clock that goes on (include/websocket_proxy/
-- websocket_proxy_client.h).
use websocket_proxy.Base.{
  ℕ, ◌≤◌, ◌≡◌, refl, sym, subst, Bool, true, Text, if-case, ltb, leb, ◌==◌, length, arith,
}
use websocket_proxy.Protocol.{Status, WsOpen, RegisterMessage}
use websocket_proxy.Client.State.{Client, client_tick, client_now, send_request}
use websocket_proxy.Client.Waiting.{
  Run, finished, aborted, unfinished, ◌>>=◌, wait_for_response, wait_for_server_ready, spawn_loop,
  start_limit,
}
use websocket_proxy.Client.Connecting.{
  Reply, Setup, strcpy_s, c_str, launch, spawn_proxy_server, register_client, connect,
}
use websocket_proxy.Client.Requests.{
  url_limit, response_timeout, send_open, send_open_message, open_web_socket, close_web_socket,
  copy_symbol, subscribe_to,
}
use websocket_proxy.Client.Quiet.{Each, Quiet}
use websocket_proxy.Client.Quiet.Calls.{Behind, Quiet-spawn_proxy_server, Quiet-ready}
use websocket_proxy.Client.Quiet.Requests.{Quiet-send_open_message}
use websocket_proxy.Client.Halting.{Halts, Halts-now, Halts-if, Halts-bind, is_over}
use websocket_proxy.Client.Halting.Loops.{
  IsRunning, Halts-wait_for_response, Halts-spawn, Halts-ready,
}

-- A clock that passes a limit passes a smaller one.
pub IsRunning-le : (m n : ℕ) (clock : ℕ → ℕ) → m ≤ n → IsRunning n clock → IsRunning m clock
IsRunning-le m n clock le r k = record {
  at = (r k).at;
  later = (r k).later;
  late = omega (arith, (r k).late);
  still_late = omega (arith, (r k).still_late);
}

module _ {A : Type 0} where
  -- Waiting for an answer, and one more thing.
  Halts-wait :
      (limit : ℕ) (status : ℕ → Status) (c : Client) (k : Bool × ℕ × Client → A)
      → IsRunning limit c.clock
      → Halts (λ f. wait_for_response f limit status c >>= λ r. finished (k r))
  Halts-wait limit status c k r =
      Halts-bind (λ _. Unit {0}) (λ f. wait_for_response f limit status c) (λ a _. finished (k a))
        (Halts-wait_for_response limit status c r)
        (λ f. trivial (wait_for_response f limit status c)) (λ a _. Halts-now _ refl)
    where
      trivial : (m : Run (Bool × ℕ × Client)) → Each (λ _. Unit {0}) m
      trivial (finished a) = tt
      trivial aborted = tt
      trivial unfinished = tt

-- The longest that a client waits for one thing, in milliseconds.
abbrev pub longest : ℕ
longest = 30000

strcpy_s-over : (n : ℕ) (t : Text) → is_over (strcpy_s n t) ≡ true
strcpy_s-over n t =
    if-case (λ (r : Run Text). is_over r ≡ true) (ltb (length (c_str t)) n) _ _ (λ _. refl)
      (λ _. refl)

copy_symbol-over : (t : Text) → is_over (copy_symbol t) ≡ true
copy_symbol-over t =
    if-case (λ (r : Run Text). is_over r ≡ true) (leb (length t) 256) _ _ (λ _. refl) (λ _. refl)

abbrev Any : {A : Type 0} → A → Type 0
Any _ = Unit

trivially : {A : Type 0} (m : Run A) → Each Any m
trivially (finished a) = tt
trivially aborted = tt
trivially unfinished = tt

-- A copy of a string, and what follows.
Halts-copy :
    {A : Type 0} (m : Run Text) (k : Text → ℕ → Run A)
    → is_over m ≡ true
    → ((t : Text) → Halts (k t))
    → Halts (λ f. m >>= λ t. k t f)
Halts-copy m k o h = Halts-bind Any (λ _. m) k (Halts-now m o) (λ _. trivially m) (λ t _. h t)

kept : {c d : Client} → IsRunning longest c.clock → Quiet c d → IsRunning longest d.clock
kept r q = subst (IsRunning longest) (sym q.clock) r

module _ (c : Client) (r : IsRunning longest c.clock) where
  Halts-launch : (env : Setup) → Halts (λ f. launch f env c)
  unfolding launch
  Halts-launch env = Halts-if env.is_running _ _ (Halts-now _ refl) (
      Halts-if env.is_launched _ _
        (Halts-bind Any (λ f. spawn_loop f (client_now c) env.running 0 (client_tick c)) _
          (Halts-spawn env.running c (IsRunning-le start_limit longest c.clock (omega arith) r))
          (λ f. trivially (spawn_loop f (client_now c) env.running 0 (client_tick c)))
          (λ d _. Halts-now _ refl))
        (Halts-now _ refl))

  Halts-spawn_proxy_server : (env : Setup) → Halts (λ f. spawn_proxy_server f env c)
  unfolding spawn_proxy_server
  Halts-spawn_proxy_server env =
      Halts-bind Any (λ f. launch f env c) _ (Halts-launch env) (λ f. trivially (launch f env c))
        (λ d _. Halts-now _ refl)

  Halts-register_client : (reply : Reply RegisterMessage) → Halts (λ f. register_client f reply c)
  unfolding register_client send_request
  Halts-register_client reply =
      Halts-copy (strcpy_s 31 c.name) _ (strcpy_s-over 31 c.name) λ name.
        Halts-wait 20000 reply.status _ _ (IsRunning-le 20000 longest c.clock (omega arith) r)

Halts-connect :
    (env : Setup) (c : Client) → IsRunning longest c.clock → Halts (λ f. connect f env c)
unfolding connect
Halts-connect env c r =
    Halts-bind (Behind c) (λ f. spawn_proxy_server f env c) _ (Halts-spawn_proxy_server c r env)
      (λ f. Quiet-spawn_proxy_server f env c)
      λ (spawned, d) q.
        Halts-if spawned _ _
          (Halts-if (d.server_queue_index == 0) _ _
            (Halts-bind (Behind d) (λ f. wait_for_server_ready f env.ready d) _
              (Halts-ready env.ready d
                (IsRunning-le start_limit longest d.clock (omega arith) (kept r q)))
              (λ f. Quiet-ready f env.ready d)
              λ (ready, e) p.
                Halts-if ready _ _ (Halts-register_client e (kept (kept r q) p) env.reply)
                  (Halts-now _ refl))
            (Halts-register_client d (kept r q) env.reply))
          (Halts-now _ refl)

Halts-send_open : (url key : Text) (c : Client) → Halts (λ _. send_open url key c)
unfolding send_open
Halts-send_open url key c =
    Halts-copy (strcpy_s 512 url) _ (strcpy_s-over 512 url)
      λ u. Halts-copy (strcpy_s 512 key) _ (strcpy_s-over 512 key) λ k. Halts-now _ refl

Halts-send_open_message :
    (env : Setup) (url key : Text) (c : Client)
    → IsRunning longest c.clock
    → Halts (λ f. send_open_message f env url key c)
unfolding send_open_message
Halts-send_open_message env url key c r =
    Halts-if (ltb url_limit (length url)) _ _ (Halts-now _ refl) (
      Halts-if (c.server_pid == 0) _ _
        (Halts-bind Any (λ f. connect f env c) _ (Halts-connect env c r)
          (λ f. trivially (connect f env c))
          λ (connected, d) _. Halts-if connected _ _ (Halts-send_open url key d) (Halts-now _ refl))
        (Halts-send_open url key c))

-- If the clock passes every reading by more than 30000 milliseconds, `openWebSocket` returns, or the
-- process ends in it: enough fuel gives a result, and more fuel gives the same.
pub Halts-open_web_socket :
    (env : Setup) (reply : Reply WsOpen) (url key : Text) (c : Client)
    → IsRunning longest c.clock
    → Halts (λ f. open_web_socket f env reply url key c)
unfolding open_web_socket
Halts-open_web_socket env reply url key c r =
    Halts-bind (Behind c) (λ f. send_open_message f env url key c) _
      (Halts-send_open_message env url key c r) (λ f. Quiet-send_open_message f env url key c)
      λ (sent, d) q.
        Halts-if sent _ _ (Halts-wait 30000 reply.status d _ (kept r q)) (Halts-now _ refl)

-- If the clock passes every reading by more than 30000 milliseconds, `closeWebSocket` returns:
-- enough fuel gives a result, and more fuel gives the same.
pub Halts-close_web_socket :
    (status : ℕ → Status) (id : ℕ) (c : Client)
    → IsRunning longest c.clock
    → Halts (λ f. close_web_socket f status id c)
unfolding close_web_socket send_request
Halts-close_web_socket status id c r =
    Halts-wait response_timeout status _ _
      (IsRunning-le response_timeout longest c.clock (omega arith) r)

-- If the clock passes every reading by more than 30000 milliseconds, `subscribe` returns, or the
-- process ends in it: enough fuel gives a result, and more fuel gives the same.
pub Halts-subscribe_to :
    (status : ℕ → Status) (id : ℕ) (symbol bytes : Text) (type : ℕ) (c : Client)
    → IsRunning longest c.clock
    → Halts (λ f. subscribe_to f status id symbol bytes type c)
unfolding subscribe_to send_request
Halts-subscribe_to status id symbol bytes type c r =
    Halts-copy (copy_symbol symbol) _ (copy_symbol-over symbol) λ s.
      Halts-wait response_timeout status _ _
        (IsRunning-le response_timeout longest c.clock (omega arith) r)
