-- ===== src/Client/Connecting.antt =====
-- How a client connects (include/websocket_proxy/websocket_proxy_client.h, `connect`,
-- `spawnWebsocketsProxyServer`, `_register`).
use websocket_proxy.Base.{
  ℕ, zero, suc, ◌+◌, Bool, true, false, ◌||◌, [], Text, ltb, ◌==◌, if◌then◌else◌, length,
}
use websocket_proxy.Protocol.{Status, RegisterMessage, register, c_string}
use websocket_proxy.Server.Callbacks.{get_message_size}
use websocket_proxy.Client.State.{Client, client_now, client_tick, request, send_request, is_failed}
use websocket_proxy.Client.Waiting.{
  Run, finished, aborted, ◌>>=◌, spawn_loop, wait_for_server_ready, wait_for_response,
}

-- What the loads of a message's status return, and what the memory holds once it is answered.
pub record Reply (A : Type 0) : Type 0 where
  pub status : ℕ → Status
  pub answer : A

-- What the system and the queues' constructors answer while a client connects.
pub record Setup : Type 0 where
  pub is_running : Bool
  pub is_launched : Bool
  pub running : ℕ → Bool
  pub has_server_queue : ℕ → Bool
  pub has_client_queue : Bool
  pub reading_index : ℕ
  pub ready : ℕ → Bool
  pub reply : Reply RegisterMessage

-- The bytes of a string before its first NUL.
abbrev pub c_str : Text → Text
c_str t = c_string (length t) t

-- strcpy_s(dest, n, t) ends the process if the string and its NUL do not fit.
abbrev pub strcpy_s : ℕ → Text → Run Text
strcpy_s n t = if ltb (length (c_str t)) n then finished (c_str t) else aborted

abbrev pub register_size : ℕ
register_size = 32 + 8 + 256

-- The loop of `retry`, from attempt `k` on.
unfoldable pub open_queue : ℕ → ℕ → (ℕ → Bool) → Bool
open_queue zero k opens = false
open_queue (suc retry) k opens =
    let rest = open_queue retry (suc k) opens in if opens k then true else rest

-- The process is launched if it does not run.
unfoldable pub launch : ℕ → Setup → Client → Run (Bool × Client)
launch fuel env c =
    if env.is_running
    then finished (true, c)
    else if env.is_launched
    then (spawn_loop fuel (client_now c) env.running 0 (client_tick c) >>= λ d. finished (true, d))
    else finished (false, c)

-- The queues are opened. A queue of an earlier connection stays if the server's queue does not open.
unfoldable pub attach : Setup → Client → Bool × Client
unfolding open_queue
attach env c =
    if open_queue 5 0 env.has_server_queue || c.has_queue
    then (if env.has_client_queue
        then (true, record c { has_queue = true; server_queue_index = env.reading_index })
        else (false, record c { has_queue = true }))
    else (false, c)

-- spawnWebsocketsProxyServer
unfoldable pub spawn_proxy_server : ℕ → Setup → Client → Run (Bool × Client)
spawn_proxy_server fuel env c =
    launch fuel env c >>= λ (launched, d). finished (if launched then attach env d else (false, d))

-- The end of `_register`, once the server has answered.
unfoldable pub registered : Reply RegisterMessage → ℕ → Client → Bool × Client
registered reply k c =
    let d = record (client_tick c) { last_server_heartbeat_time = client_now c } in
    if is_failed (reply.status (suc k))
    then (false, d)
    else (true, record d { server_pid = reply.answer.server_pid })

-- _register
unfoldable pub register_client : ℕ → Reply RegisterMessage → Client → Run (Bool × Client)
register_client fuel reply c = strcpy_s 31 c.name >>= λ name.
    let d =
      send_request (get_message_size register_size 0)
        (request c (register (record { name = name; server_pid = 0; err = [] }))) c in
    wait_for_response fuel 20000 reply.status d >>= λ (answered, k, e).
    finished (if answered then registered reply k e else (false, e))

-- connect, apart from the worker thread, which starts here
unfoldable pub connect : ℕ → Setup → Client → Run (Bool × Client)
connect fuel env c = spawn_proxy_server fuel env c >>= λ (spawned, d).
    if spawned
    then (if d.server_queue_index == 0
        then (wait_for_server_ready fuel env.ready d >>= λ (ready, e).
            if ready then register_client fuel env.reply e else finished (false, e))
        else register_client fuel env.reply d)
    else finished (false, d)
