-- ===== src/Examples/Process.antt =====
-- Runs of the proxy process.
use websocket_proxy.Base.{
  All, ℕ, ◌*◌, ◌≡◌, refl, true, false, none, some, [], ◌∷◌, Text, arith, first, nat_eq, text_eq,
  ◌==◌, if◌then◌else◌,
}
use websocket_proxy.Base.Maps.{find, erase, emplace, modify, contains}
use websocket_proxy.Protocol.{
  pending, Message, Body, register, unregister, open_ws, WsOpen, c_string,
}
use websocket_proxy.Examples.Urls.{codes}
use websocket_proxy.Url.{
  Address, parse_url, split_url, split_port, default_port, index_of, index_from, stoi_u16,
}
use websocket_proxy.Server.State.{
  Server, Opening, Websocket, spawn, connected, first_heartbeat, with_posted, with_opening, key_eq,
}
use websocket_proxy.Server.Sockets.{opened, name_port, ErrorCode, other, eof, on_read, on_close}
use websocket_proxy.Server.Ended.{handle_open-on_read}
use websocket_proxy.Server.Failing.{IsEnded, on_read-IsEnded}
use websocket_proxy.Server.Clients.{
  handle_client_registration, unregister_client, unregister_found, forget_client, close_each,
  detach, get_client,
}
use websocket_proxy.Server.Requests.{
  returned, handle_open, open_for, open_new_ws, new_websocket, request_key, open_begin, open_end,
  open_succeeded,
}
use websocket_proxy.Server.Callbacks.{on_ws_opened, send_message, send_message_at}
use websocket_proxy.Server.Loop.{
  remove_closed, process_client_message, handle_client_message, remove_closed_sockets, next_round,
}
use websocket_proxy.Server.Steps.{
  Step, client_round, open_begins, open_ends, Reach, here, next, init,
}
use websocket_proxy.Server.View.{view, Leads}
use websocket_proxy.Server.View.Requests.{HasIds}
use websocket_proxy.Server.View.Steps.{Step-Leads, Reach-IsConsistent}
use websocket_proxy.Registry.Consistent.{IsConsistent}
use websocket_proxy.Server.Telling.{IsSound}
use websocket_proxy.Server.Published.{Reach-IsSound}
use websocket_proxy.Server.Lifetime.{IsExpired}
use websocket_proxy.Server.Idling.{IsSince, idle_shutdown}
use websocket_proxy.Server.Deafness.{malformed_url_deafens, IsDeaf, open_request}
use websocket_proxy.Server.Sharing.{IsJoined, handle_open-joins, concurrent_opens_duplicate}

-- A clock that shows 70000 milliseconds more at each reading.
abbrev pub slow_clock : ℕ → ℕ
slow_clock n = 70000 * n

abbrev pub message : ℕ → Body → Message
message pid body = record { pid = pid; status = pending; body = body }

abbrev registration : ℕ → Message
registration pid = message pid (register (record { name = []; server_pid = 0; err = [] }))

-- A client registers.
abbrev pub started : Server
started =
    process_client_message (some (registration 7)) []
      (with_posted (first_heartbeat ∷ []) (init 5 slow_clock))

started-Step : Step (init 5 slow_clock) started
unfolding init
started-Step = client_round (first_heartbeat ∷ []) (some (registration 7)) [] first

-- It leaves, and the clock is late enough to end the process at once.
abbrev left_at_last : Server
left_at_last =
    process_client_message (some (message 7 unregister)) []
      (with_posted (first_heartbeat ∷ []) started)

idle_shutdown_example : IsExpired left_at_last × IsSince slow_clock (init 5 slow_clock) left_at_last
unfolding init process_client_message handle_client_message remove_closed_sockets next_round
    handle_client_registration unregister_client find modify emplace unregister_found forget_client
    erase close_each detach
idle_shutdown_example =
    idle_shutdown {P = λ _. Unit {0}} 5 slow_clock (first_heartbeat ∷ [])
      (some (message 7 unregister)) [] (next here tt started-Step) first refl

abbrev pub wants : Text → WsOpen
wants url = record {
  url = url;
  api_key = codes "key";
  client_pid = 0;
  id = 0;
  new_connection = false;
  err = [];
}

abbrev pub good_url : Text
good_url = codes "ws://localhost/a"

abbrev good_address : Address
good_address = record { host = codes "localhost"; path = codes "/a"; port = 80 }

-- Clients 7 and 8 are registered.
abbrev pub two_clients : Server
two_clients = record (init 5 slow_clock) {
  clients =
      (7, record { pid = 7; last_heartbeat_time = 0 })
      ∷ (8, record { pid = 8; last_heartbeat_time = 0 })
      ∷ [];
  posted = [];
}

-- A request with a malformed port, from client 7.
malformed_url_deafens_example : IsDeaf (
    process_client_message
      (some (open_request 7 (wants (codes "ws://localhost:x/a"))))
      []
      two_clients)
unfolding init get_client find parse_url split_port index_of split_url c_string index_from stoi_u16
malformed_url_deafens_example =
    malformed_url_deafens {P = λ _. Unit {0}} 7 (wants (codes "ws://localhost:x/a")) [] two_clients
      refl refl refl tt here

-- Two requests for one URL, from clients 7 and 8.
concurrent_opens_duplicate_example :
    (t u : Server) × (handle_open (open_request 7 (wants good_url)) (wants good_url) two_clients
      ≡ returned t)
    × (handle_open (open_request 8 (wants good_url)) (wants good_url) t ≡ returned u)
    × (u.effects ≡ spawn 1 ∷ spawn 0 ∷ [])
unfolding init find parse_url split_port index_of split_url c_string index_from default_port
concurrent_opens_duplicate_example =
    concurrent_opens_duplicate (open_request 7 (wants good_url)) (open_request 8 (wants good_url))
      (wants good_url) (wants good_url) two_clients good_address refl refl refl refl refl

abbrev pub open_socket : Websocket
open_socket = record (new_websocket (wants good_url) good_address 50001) {
  clients = 7 ∷ [];
  status = connected;
}

-- Object 0 is open for client 7.
abbrev pub one_socket : Server
one_socket = record two_clients {
  by_id = (50001, 0) ∷ [];
  by_key = (request_key (wants good_url), 0) ∷ [];
  heap = λ a. if a == 0 then some open_socket else none;
  allocated = 1;
}

-- Client 8 asks for the socket of client 7.
handle_open-joins_example :
    (t : Server) × (handle_open (open_request 8 (wants good_url)) (wants good_url) one_socket
      ≡ returned t)
    × IsJoined (open_request 8 (wants good_url)) (wants good_url) 0 open_socket one_socket t
unfolding init find c_string
handle_open-joins_example =
    handle_open-joins (open_request 8 (wants good_url)) (wants good_url) one_socket 0 open_socket
      refl refl

-- The same after the other side has ended the connection.
abbrev end_of_file : ErrorCode
end_of_file = record { kind = eof; message = codes "End of file" }

handle_open-on_read_example :
    (t : Server) × (handle_open
        (open_request 8 (wants good_url))
        (wants good_url)
        (on_read 0 (some end_of_file) [] one_socket)
      ≡ returned t)
    × IsJoined (open_request 8 (wants good_url)) (wants good_url) 0 open_socket one_socket t
unfolding init find c_string
handle_open-on_read_example =
    handle_open-on_read 0 end_of_file [] (open_request 8 (wants good_url)) (wants good_url)
      open_socket one_socket refl refl refl

-- Client 7 registers and asks for a socket, which opens.
abbrev ask : Message
ask = open_request 7 (wants good_url)

abbrev asked : Server
asked = process_client_message (some ask) [] (with_posted (first_heartbeat ∷ []) started)

abbrev pending_open : Opening
pending_open = record {
  address = 0;
  message = message 7 (open_ws (record (wants good_url) { new_connection = true }));
}

abbrev pub begun : Server
begun = open_begin 0 asked

abbrev pub finished : Server
finished = open_end 0 pending_open.message (opened 80) (with_opening [] begun)

HasIds-init : HasIds (init 5 slow_clock)
unfolding init
HasIds-init = record { pid = omega arith; count = omega arith }

HasIds-started : HasIds started
unfolding init process_client_message handle_client_message next_round remove_closed_sockets
    handle_client_registration
HasIds-started =
    let pid : started.pid ≡ 5 = refl in
    let count : started.websocket_id ≡ 0 = refl in
    record { pid = omega (arith, pid); count = omega (arith, count) }

HasIds-asked : HasIds asked
unfolding init process_client_message open_begin handle_client_message handle_open get_client find
    next_round remove_closed_sockets handle_client_registration modify emplace open_for open_new_ws
    parse_url split_port index_of split_url c_string index_from default_port
HasIds-asked =
    let pid : asked.pid ≡ 5 = refl in
    let count : asked.websocket_id ≡ 1 = refl in
    record { pid = omega (arith, pid); count = omega (arith, count) }

HasIds-begun : HasIds begun
unfolding init process_client_message open_begin handle_client_message handle_open get_client find
    next_round remove_closed_sockets handle_client_registration modify emplace open_for open_new_ws
    parse_url split_port index_of split_url c_string index_from default_port
HasIds-begun =
    let pid : begun.pid ≡ 5 = refl in
    let count : begun.websocket_id ≡ 1 = refl in
    record { pid = omega (arith, pid); count = omega (arith, count) }

asked-Step : Step started asked
unfolding init process_client_message handle_client_message next_round remove_closed_sockets
    handle_client_registration
asked-Step = client_round (first_heartbeat ∷ []) (some ask) [] first

begun-Step : Step asked begun
unfolding init process_client_message open_begin handle_client_message handle_open get_client find
    next_round remove_closed_sockets handle_client_registration modify emplace open_for open_new_ws
    parse_url split_port index_of split_url c_string index_from default_port
begun-Step = open_begins pending_open [] first

finished-Step : Step begun finished
unfolding init process_client_message open_begin handle_client_message handle_open get_client find
    next_round remove_closed_sockets handle_client_registration modify emplace open_for open_new_ws
    parse_url split_port index_of split_url c_string index_from default_port
finished-Step = open_ends pending_open [] (opened 80) first

begun_reached : Reach HasIds (init 5 slow_clock) begun
begun_reached =
    next (next (next here HasIds-init started-Step) HasIds-started asked-Step) HasIds-asked
      begun-Step

pub finished-IsConsistent : IsConsistent (view finished)
finished-IsConsistent =
    Reach-IsConsistent 5 slow_clock {s = finished} (next begun_reached HasIds-begun finished-Step)

-- It is a client then, and its socket is registered.
pub finished_client : contains 7 finished.clients ≡ true
unfolding init process_client_message open_begin open_end open_succeeded name_port on_ws_opened
    send_message send_message_at handle_client_message handle_open get_client find next_round
    remove_closed_sockets handle_client_registration modify emplace open_for open_new_ws parse_url
    split_port index_of split_url c_string index_from default_port
finished_client = refl

pub finished_socket : find 50001 finished.by_id ≡ some 0
unfolding init process_client_message open_begin open_end open_succeeded name_port on_ws_opened
    send_message send_message_at handle_client_message handle_open get_client find next_round
    remove_closed_sockets handle_client_registration modify emplace open_for open_new_ws parse_url
    split_port index_of split_url c_string index_from default_port
finished_socket = refl

Reach-IsConsistent_example : IsConsistent (view finished)
Reach-IsConsistent_example =
    Reach-IsConsistent 5 slow_clock {s = finished} (next begun_reached HasIds-begun finished-Step)

Reach-IsSound_example : All (IsSound 5) finished.effects
Reach-IsSound_example =
    Reach-IsSound 5 slow_clock {s = finished} (next begun_reached HasIds-begun finished-Step)

Step-Leads_example : Leads begun finished
Step-Leads_example =
    Step-Leads finished-Step HasIds-begun (Reach-IsConsistent 5 slow_clock begun_reached)

-- A read on the socket fails.
abbrev reset_error : ErrorCode
reset_error = record { kind = other; message = codes "reset" }

on_read-IsEnded_example :
    (t u v : Server) × (on_read 0 (some reset_error) [] one_socket ≡ t)
    × (on_close 0 none t ≡ u)
    × (remove_closed 50001 u ≡ v)
    × IsEnded 0 open_socket reset_error one_socket t u v
unfolding init find
on_read-IsEnded_example =
    on_read-IsEnded 0 open_socket reset_error [] one_socket refl refl refl refl
