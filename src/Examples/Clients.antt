-- ===== src/Examples/Clients.antt =====
-- Clients that leave, and the end of the process.
use websocket_proxy.Base.{◌⊎◌, ◌≡◌, refl, false, none, some, [], ◌∷◌, nat_eq}
use websocket_proxy.Base.Maps.{find, erase}
use websocket_proxy.Examples.Process.{two_clients, finished, finished-IsConsistent, finished_client}
use websocket_proxy.Server.State.{Server, ClientInfo, key_eq, now}
use websocket_proxy.Server.Clients.{
  unregister_client, check_heartbeats, is_lost, expire_clients, unregister_found, forget_client,
  close_each, detach,
}
use websocket_proxy.Server.Callbacks.{send_heartbeat}
use websocket_proxy.Server.Steps.{init}
use websocket_proxy.Server.Loop.{run_close_all}
use websocket_proxy.Server.Departure.Clients.{
  IsGone, unregister_client-IsGone, check_heartbeats-left,
}
use websocket_proxy.Server.Shutdown.{IsDown, run_close_all-IsDown}
use websocket_proxy.Base.{◌==◌, if◌then◌else◌}
use websocket_proxy.Base.Sets.{remove}
use websocket_proxy.Protocol.{Message, close_ws, success}
use websocket_proxy.Examples.Process.{message, open_socket, one_socket}
use websocket_proxy.Server.State.{Websocket, respond, async_close}
use websocket_proxy.Server.Clients.{handle_close, close_socket_for, get_client}
use websocket_proxy.Server.Sockets.{close_socket}
use websocket_proxy.Server.Closing.{IsClosed, IsShared, handle_close-leaves}

-- Client 7 opened a socket, and leaves.
unregister_client-IsGone_example : IsGone 7 finished (unregister_client 7 finished)
unregister_client-IsGone_example =
    unregister_client-IsGone 7 finished finished-IsConsistent finished_client

-- Client 8 has been silent for 40000 milliseconds.
abbrev silent : Server
silent = record two_clients {
  clock = λ n. 40000;
  clients =
      (7, record { pid = 7; last_heartbeat_time = 35000 })
      ∷ (8, record { pid = 8; last_heartbeat_time = 0 })
      ∷ [];
}

abbrev client_7 : ClientInfo
client_7 = record { pid = 7; last_heartbeat_time = 35000 }

check_heartbeats-left_example :
    (find 7 silent.clients ≡ some client_7) × (is_lost (now silent) client_7 ≡ false)
unfolding find check_heartbeats expire_clients unregister_found forget_client erase close_each
    detach send_heartbeat init
check_heartbeats-left_example = check_heartbeats-left 7 silent client_7 refl

run_close_all-IsDown_example : IsDown finished (run_close_all finished)
run_close_all-IsDown_example = run_close_all-IsDown finished finished-IsConsistent

-- Client 7 asks to close its socket, which client 8 has too.
abbrev close_request : Message
close_request = message 7 (close_ws (record { id = 50001 }))

abbrev shared_socket : Websocket
shared_socket = record open_socket { clients = 7 ∷ 8 ∷ [] }

abbrev two_members : Server
two_members = record one_socket { heap = λ a. if a == 0 then some shared_socket else none }

-- The connection is closed if client 7 is the only one.
alone_calls :
    (handle_close close_request 50001 one_socket).effects
    ≡ respond (record close_request { status = success }) ∷ async_close 0 ∷ []
unfolding handle_close close_socket_for close_socket get_client find remove init
alone_calls = refl

handle_close-leaves_example :
    IsClosed close_request 50001 0 shared_socket two_members
      (handle_close close_request 50001 two_members)
    ⊎ IsShared close_request 0 shared_socket two_members
        (handle_close close_request 50001 two_members)
unfolding find
handle_close-leaves_example =
    handle_close-leaves close_request 50001 0 shared_socket two_members refl refl refl
