-- ===== src/Client/Waiting.antt =====
-- The loops of a client that wait (include/websocket_proxy/websocket_proxy_client.h,
-- `waitForResponse`, `waitForServerReady`, `spawnWebsocketsProxyServer`). They run on fuel.
use websocket_proxy.Base.{ℕ, zero, suc, Bool, true, false, not, ltb, if◌then◌else◌}
use websocket_proxy.Protocol.{Status, sub64}
use websocket_proxy.Client.State.{Client, client_now, client_tick, client_heartbeat, is_pending}

-- A call returns, or the process is ended by a check of the C library's, or the fuel is used up.
pub data Run {ℓ} (A : Type ℓ) : Type ℓ where
  finished : A → Run A
  aborted : Run A
  unfinished : Run A

infixl 5 ◌>>=◌
abbrev pub ◌>>=◌ {ℓ κ} : {A : Type ℓ} {B : Type κ} → Run A → (A → Run B) → Run B
finished a >>= f = f a
aborted >>= f = aborted
unfinished >>= f = unfinished

-- One round of `waitForResponse` after the status was found pending, up to the test of the time.
abbrev pub is_late : ℕ → ℕ → Client → Bool
is_late start timeout c = ltb timeout (sub64 (client_now c) start)

abbrev pub beat : Client → Client
beat c = let (_, d) = client_heartbeat (client_now c) (client_tick c) in d

-- The loop of `waitForResponse`, with the number of the load that ended it. `status k` is what load
-- number `k` of the message's status returns.
unfoldable pub wait_loop : ℕ → ℕ → ℕ → (ℕ → Status) → ℕ → Client → Run (Bool × ℕ × Client)
wait_loop zero start timeout status k c = unfinished
wait_loop (suc fuel) start timeout status k c =
    let rest = wait_loop fuel start timeout status (suc k) (beat c) in
    if is_pending (status k)
    then (if is_late start timeout c then finished (false, k, client_tick c) else rest)
    else finished (true, k, c)

-- waitForResponse
unfoldable pub wait_for_response : ℕ → ℕ → (ℕ → Status) → Client → Run (Bool × ℕ × Client)
wait_for_response fuel timeout status c =
    wait_loop fuel (client_now c) timeout status 0 (client_tick c)

-- How long the client waits for the process and for its first message, in milliseconds.
abbrev pub start_limit : ℕ
start_limit = 10000

abbrev pub is_early : ℕ → Client → Bool
is_early start c = ltb (sub64 (client_now c) start) start_limit

-- The loop that waits for the process to start; `running k` is what call number `k` of
-- `isProcessRunning` returns.
unfoldable pub spawn_loop : ℕ → ℕ → (ℕ → Bool) → ℕ → Client → Run Client
spawn_loop zero start running k c = unfinished
spawn_loop (suc fuel) start running k c =
    let rest = spawn_loop fuel start running (suc k) (client_tick c) in
    if not (running k)
    then (if is_early start c then rest else finished (client_tick c))
    else finished c

-- The loop of `waitForServerReady`; `ready k` is whether read number `k` of the queue finds a message.
unfoldable pub ready_loop : ℕ → ℕ → (ℕ → Bool) → ℕ → Client → Run (Bool × Client)
ready_loop zero start ready k c = unfinished
ready_loop (suc fuel) start ready k c =
    let rest = ready_loop fuel start ready (suc k) (client_tick c) in
    if is_early start c
    then (if ready k then finished (true, client_tick c) else rest)
    else finished (false, client_tick c)

-- waitForServerReady
unfoldable pub wait_for_server_ready : ℕ → (ℕ → Bool) → Client → Run (Bool × Client)
wait_for_server_ready fuel ready c = ready_loop fuel (client_now c) ready 0 (client_tick c)
