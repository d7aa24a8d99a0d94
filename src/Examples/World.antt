-- ===== src/Examples/World.antt =====
-- A server and a client in one world.
use websocket_proxy.Base.{
  ◌≡◌, refl, true, false, none, some, [], ◌∷◌, first, inl, inr, nat_eq, text_eq,
}
use websocket_proxy.Protocol.{Message, register, open_ws, ws_data, c_string}
use websocket_proxy.Server.State.{Server, Opening, first_heartbeat, with_posted, with_opening}
use websocket_proxy.Server.Sockets.{opened, name_port, on_read}
use websocket_proxy.Server.Clients.{handle_client_registration, get_client}
use websocket_proxy.Server.Callbacks.{on_ws_opened, on_ws_data, send_message, send_message_at}
use websocket_proxy.Base.Maps.{find, modify, emplace}
use websocket_proxy.Base.Sets.{has, insert}
use websocket_proxy.Url.{parse_url, split_port, index_of, split_url, index_from, default_port}
use websocket_proxy.Server.Requests.{
  open_begin, open_end, handle_open, open_for, open_new_ws, open_succeeded,
}
use websocket_proxy.Server.Loop.{
  process_client_message, handle_client_message, next_round, remove_closed_sockets,
}
use websocket_proxy.Server.Steps.{client_round, open_begins, open_ends, read_ends, init}
use websocket_proxy.Client.State.{
  Client, request, client_heartbeat, send_request, websocket_opened, websocket_data,
}
use websocket_proxy.Client.Callbacks.{told}
use websocket_proxy.Client.Requests.{open_web_socket, send_open_message, send_open, opened_socket}
use websocket_proxy.Client.Connecting.{
  connect, spawn_proxy_server, launch, attach, register_client, registered,
}
use websocket_proxy.Client.Waiting.{wait_for_response, wait_loop}
use websocket_proxy.Client.Worker.{work_round, work_on, receive, handle_ws_open, handle_ws_data}
use websocket_proxy.Client.Steps.{opens, works}
use websocket_proxy.World.{
  World, HasRequested, HasPublished, set_at, Turn, server_turn, client_turn, Start, world, at_first,
  turn_by,
}
use websocket_proxy.World.Backed.{AreBacked}
use websocket_proxy.World.Told.{IsOut, Turns-AreBacked}
use websocket_proxy.Examples.Urls.{codes}
use websocket_proxy.Examples.Process.{message, wants, good_url, slow_clock}
use websocket_proxy.Examples.Client.{step_clock, unconnected, has_opened, setup, reply}

abbrev start : Start
start = record {
  server_pid = λ k. 5;
  server_clock = λ k. slow_clock;
  client_pid = λ n. 7;
  client_name = λ n. codes "reader";
  client_clock = λ n. step_clock;
}

-- What the client writes when it connects and opens a socket.
abbrev registering : Message
registering =
    request unconnected (register (record { name = codes "reader"; server_pid = 0; err = [] }))

abbrev asking : Message
asking = request unconnected (open_ws (wants good_url))

abbrev asked_world : World
asked_world = record (world start) { clients = set_at 0 has_opened (world start).clients }

asked_Turn : Turn (world start) asked_world
unfolding open_web_socket send_open_message connect spawn_proxy_server launch attach register_client
    c_string wait_for_response wait_loop registered send_open opened_socket client_heartbeat
    send_request
asked_Turn = client_turn 0 (opens 10 setup reply good_url (codes "key") (50001, false) refl) tt

-- Both messages are in the queue then.
both_written :
    HasRequested (λ m. m ≡ registering) asked_world.clients
    × HasRequested (λ m. m ≡ asking) asked_world.clients
unfolding open_web_socket send_open_message connect spawn_proxy_server launch attach register_client
    c_string wait_for_response wait_loop registered send_open opened_socket client_heartbeat
    send_request
both_written = ((0, inr (inl refl)), (0, inl refl))

-- The server reads them and opens the socket.
abbrev server_one : Server
server_one =
    process_client_message (some registering) []
      (with_posted (first_heartbeat ∷ []) (init 5 slow_clock))

abbrev server_two : Server
server_two = process_client_message (some asking) [] (with_posted (first_heartbeat ∷ []) server_one)

abbrev waiting : Opening
waiting = record {
  address = 0;
  message = record asking { body = open_ws (record (wants good_url) { new_connection = true }) };
}

abbrev server_three : Server
server_three = open_begin 0 server_two

abbrev server_four : Server
server_four = open_end 0 waiting.message (opened 80) (with_opening [] server_three)

abbrev world_one : World
world_one = record asked_world { servers = set_at 0 server_one asked_world.servers }

one_Turn : Turn asked_world world_one
unfolding init
one_Turn =
    server_turn 0 (client_round (first_heartbeat ∷ []) (some registering) [] first) both_written.0

abbrev world_two : World
world_two = record world_one { servers = set_at 0 server_two world_one.servers }

two_Turn : Turn world_one world_two
unfolding init process_client_message handle_client_message next_round remove_closed_sockets
    handle_client_registration
two_Turn = server_turn 0 (client_round (first_heartbeat ∷ []) (some asking) [] first) both_written.1

abbrev world_three : World
world_three = record world_two { servers = set_at 0 server_three world_two.servers }

three_Turn : Turn world_two world_three
unfolding init process_client_message handle_client_message next_round remove_closed_sockets
    handle_client_registration handle_open get_client find modify emplace open_for open_new_ws
    parse_url split_port index_of split_url c_string index_from default_port
three_Turn = server_turn 0 (open_begins waiting [] first) tt

abbrev world_four : World
world_four = record world_three { servers = set_at 0 server_four world_three.servers }

four_Turn : Turn world_three world_four
unfolding init open_begin process_client_message handle_client_message next_round
    remove_closed_sockets handle_client_registration handle_open get_client find modify emplace
    open_for open_new_ws parse_url split_port index_of split_url c_string index_from default_port
four_Turn = server_turn 0 (open_ends waiting [] (opened 80) first) tt

-- It reads data from the connection.
abbrev server_five : Server
server_five = on_read 0 none (codes "[]") server_four

abbrev world_five : World
world_five = record world_four { servers = set_at 0 server_five world_four.servers }

five_Turn : Turn world_four world_five
five_Turn = server_turn 0 (read_ends 0 none (codes "[]")) tt

-- The client reads that its socket is open, and then the data.
abbrev open_notice : Message
open_notice = message 5 (
    open_ws (record {
      url = [];
      api_key = [];
      client_pid = 7;
      id = 50001;
      new_connection = true;
      err = [];
    }))

abbrev data_notice : Message
data_notice =
    message 5 (ws_data (record { id = 50001; len = 2; remaining = 0; bytes = codes "[]" }))

both_published :
    HasPublished (λ m. m ≡ open_notice) world_five.servers
    × HasPublished (λ m. m ≡ data_notice) world_five.servers
unfolding init open_begin open_end open_succeeded name_port on_ws_opened on_ws_data send_message
    send_message_at on_read process_client_message handle_client_message next_round
    remove_closed_sockets handle_client_registration handle_open get_client find modify emplace
    open_for open_new_ws parse_url split_port index_of split_url c_string index_from default_port
both_published = ((0, inr (inr (inr (inl refl)))), (0, inr (inl refl)))

abbrev world_six : World
world_six = record world_five {
  clients = set_at 0 (work_round (some open_notice) has_opened) world_five.clients;
}

six_Turn : Turn world_five world_six
six_Turn = client_turn 0 (works (some open_notice)) both_published.0

abbrev reader : Client
reader = work_round (some data_notice) (work_round (some open_notice) has_opened)

abbrev world_seven : World
world_seven = record world_six { clients = set_at 0 reader world_six.clients }

seven_Turn : Turn world_six world_seven
seven_Turn = client_turn 0 (works (some data_notice)) both_published.1

reader_told : told reader.calls ≡ websocket_data 50001 (codes "[]") 0 ∷ websocket_opened 50001 ∷ []
unfolding told work_round work_on receive handle_ws_open handle_ws_data has insert c_string
    open_web_socket send_open_message connect spawn_proxy_server launch attach register_client
    wait_for_response wait_loop registered send_open opened_socket client_heartbeat send_request
reader_told = refl

Turns-AreBacked_example : AreBacked (IsOut world_seven.servers) 7 (told reader.calls)
Turns-AreBacked_example =
    Turns-AreBacked start {w = world_seven}
      (turn_by
        (turn_by
          (turn_by
            (turn_by
              (turn_by (turn_by (turn_by (turn_by at_first asked_Turn) one_Turn) two_Turn)
                three_Turn)
              four_Turn)
            five_Turn)
          six_Turn)
        seven_Turn)
      0
