-- ===== src/Client/Worker.antt =====
-- The worker thread of a client (include/websocket_proxy/websocket_proxy_client.h, `doWork` and the
-- handlers of the server's messages).
use websocket_proxy.Base.{
  ℕ, Bool, not, ◌&&◌, Option, none, some, List, [], ◌∷◌, ltb, ◌==◌, nat_eq, if◌then◌else◌, take,
}
use websocket_proxy.Base.Sets.{has, insert, remove}
use websocket_proxy.Protocol.{
  WsOpen, WsClose, WsError, WsData, Body, register, unregister, open_ws, close_ws, heartbeat,
  ws_request, ws_data, ws_error, subscribe, unsubscribe, log_level, unknown, Message,
  heartbeat_timeout, sub64,
}
use websocket_proxy.Client.State.{
  Client, server_disconnected, websocket_opened, websocket_closed, websocket_error, websocket_data,
  call, client_now, client_tick, client_heartbeat,
}

-- handleWsOpen
unfoldable pub handle_ws_open : WsOpen → Client → Client
handle_ws_open opened c =
    if opened.client_pid == c.pid
    then call (websocket_opened opened.id) (record c { websockets = insert opened.id c.websockets })
    else c

-- handleWsClose
unfoldable pub handle_ws_close : WsClose → Client → Client
handle_ws_close close c =
    if has close.id c.websockets
    then call (websocket_closed close.id) (record c { websockets = remove close.id c.websockets })
    else c

-- handleWsError
unfoldable pub handle_ws_error : WsError → Client → Client
handle_ws_error e c =
    if has e.id c.websockets then call (websocket_error e.id (take e.len e.err)) c else c

-- handleWsData
unfoldable pub handle_ws_data : WsData → Client → Client
handle_ws_data d c =
    if has d.id c.websockets
    then call (websocket_data d.id (take d.len d.bytes) d.remaining) c
    else c

-- The switch on the type of the server's message.
unfoldable pub receive : Body → Client → Client
receive (open_ws opened) c = handle_ws_open opened c
receive (close_ws close) c = handle_ws_close close c
receive (ws_error e) c = handle_ws_error e c
receive (ws_data d) c = handle_ws_data d c
receive (register _) c = c
receive unregister c = c
receive heartbeat c = c
receive (ws_request _) c = c
receive (subscribe _) c = c
receive (unsubscribe _) c = c
receive (log_level _) c = c
receive (unknown _) c = c

-- The callbacks for the sockets that are open when the server is lost.
unfoldable pub close_all_websockets : List ℕ → Client → Client
close_all_websockets [] c = c
close_all_websockets (id ∷ ids) c = close_all_websockets ids (call (websocket_closed id) c)

-- The server is taken for lost.
unfoldable pub lose_server : Client → Client
unfolding close_all_websockets
lose_server c =
    record (close_all_websockets c.websockets
      (call server_disconnected (record c { server_pid = 0 }))) { websockets = [] }

-- now - last_server_heartbeat_time_ > HEARTBEAT_TIMEOUT, once there is such a time
abbrev pub is_silent : ℕ → Client → Bool
is_silent time c =
    not (c.last_server_heartbeat_time == 0)
    && ltb heartbeat_timeout (sub64 time c.last_server_heartbeat_time)

-- A round that finds a message. One of another server ends the round at once.
unfoldable pub work_on : ℕ → Message → Client → Client
work_on time msg c =
    let d = record c { last_server_heartbeat_time = time } in
    if c.server_pid == msg.pid
    then (let (_, e) = client_heartbeat time (receive msg.body d) in e)
    else d

-- A round that finds none.
unfoldable pub work_idle : ℕ → Client → Client
work_idle time c =
    let (_, d) = client_heartbeat time c in if is_silent time d then lose_server d else d

-- One round of the loop of `doWork`, with what `server_queue_->read` returns. It does not read while
-- there is no server.
unfoldable pub work_round : Option Message → Client → Client
work_round read c = if c.server_pid == 0 then c else elim read [
  | none ↦ work_idle (client_now c) (client_tick c)
  | some msg ↦ work_on (client_now c) msg (client_tick c)
]

-- The loop, over what its reads return.
unfoldable pub do_work : List (Option Message) → Client → Client
do_work [] c = c
do_work (read ∷ reads) c = let rest = do_work reads (work_round read c) in if c.run then rest else c
