-- ===== src/Server/Loop.antt =====
-- The event loop (src/websocket_proxy.cpp): which handler an event runs, what the handlers post, and
-- how the process shuts down.
use websocket_proxy.Base.{
  ℕ, false, Option, none, some, List, [], ◌∷◌, nat_eq, ◌==◌, leb, if◌then◌else◌,
}
use websocket_proxy.Base.Maps.{Map, find, erase}
use websocket_proxy.Protocol.{
  Body, register, unregister, open_ws, close_ws, heartbeat, ws_request, ws_data, ws_error,
  subscribe, unsubscribe, log_level, unknown, Message, sub64,
}
use websocket_proxy.Server.State.{
  Server, client_message, close_all, stop_later, set_level, emit, post, now, tick, key_of, key_eq,
}
use websocket_proxy.Server.Callbacks.{send_heartbeat}
use websocket_proxy.Server.Sockets.{with_socket, close_socket}
use websocket_proxy.Server.Clients.{
  handle_client_heartbeat, handle_client_registration, unregister_client, handle_close,
  start_heartbeat,
}
use websocket_proxy.Server.Requests.{Outcome, returned, thrown, handle_open}
use websocket_proxy.Server.Subscriptions.{handle_subscribe, handle_unsubscribe, send_ws_request}

-- The switch on the message's type.
unfoldable pub dispatch : Message → Body → Server → Outcome
dispatch msg (register reg) s = returned (handle_client_registration msg reg s)
dispatch msg unregister s = returned (unregister_client msg.pid s)
dispatch msg heartbeat s = returned (handle_client_heartbeat msg s)
dispatch msg (open_ws req) s = handle_open msg req s
dispatch msg (close_ws req) s = returned (handle_close msg req.id s)
dispatch msg (ws_request req) s = returned (send_ws_request msg req s)
dispatch msg (subscribe req) s = returned (handle_subscribe msg req s)
dispatch msg (unsubscribe req) s = returned (handle_unsubscribe msg req s)
dispatch msg (log_level level) s = returned (emit (set_level level) s)
dispatch msg (ws_data _) s = returned s
dispatch msg (ws_error _) s = returned s
dispatch msg (unknown _) s = returned s

-- handleClientMessage
unfoldable pub handle_client_message : Message → Server → Outcome
unfolding dispatch
handle_client_message msg s = dispatch msg msg.body s

-- One round of `removeClosedSockets`.
unfoldable pub remove_closed : ℕ → Server → Server
remove_closed id s = elim (find id s.by_id) [
  | none ↦ s
  | some a ↦
      with_socket a
        (λ w t. record t { by_key = erase (key_of w) t.by_key; by_id = erase id t.by_id }) s
]

-- removeClosedSockets, where `closed` is what `closed_sockets_.read` returns until it has no more
unfoldable pub remove_closed_sockets : List ℕ → Server → Server
remove_closed_sockets [] s = s
remove_closed_sockets (id ∷ closed) s = remove_closed_sockets closed (remove_closed id s)

-- How long the process stays without clients, in milliseconds.
abbrev pub idle_limit : ℕ
idle_limit = 60000

-- The end of `processClientMessage`. The clock is read only if `shutdown_time_` is set.
unfoldable pub next_round : Server → Server
next_round s =
    if s.run
    then (if s.shutdown_time == 0
        then post client_message s
        else if leb idle_limit (sub64 (now s) s.shutdown_time)
        then post close_all (tick s)
        else post client_message (tick s))
    else s

-- What follows the handler: an exception leaves `processClientMessage` at once.
abbrev pub finish_round : List ℕ → Outcome → Server
finish_round closed (returned t) = next_round (remove_closed_sockets closed t)
finish_round closed (thrown t) = t

-- processClientMessage, with what `client_queue_.read` returns
unfoldable pub process_client_message : Option Message → List ℕ → Server → Server
process_client_message none closed s = finish_round closed (returned s)
process_client_message (some msg) closed s = finish_round closed (handle_client_message msg s)

-- shutdown
unfoldable pub shutdown : Server → Server
shutdown = post close_all

-- The loop over the sockets in the function that `shutdown` posts.
unfoldable pub close_one : ℕ → Server → Server
close_one a = with_socket a λ w t. record (close_socket a t) { by_key = erase (key_of w) t.by_key }

unfoldable pub close_sockets : Map ℕ ℕ → Server → Server
close_sockets [] s = s
close_sockets ((id, a) ∷ rest) s = close_sockets rest (close_one a s)

unfoldable pub run_close_all : Server → Server
run_close_all s =
    post stop_later (record (close_sockets s.by_id (record s { run = false })) { by_id = [] })

-- The function that `run` posts first.
unfoldable pub run_first_heartbeat : Server → Server
run_first_heartbeat s = let (_, t) = send_heartbeat (now s) (tick s) in start_heartbeat t
