-- ===== src/Examples/Ending.antt =====
-- The end of a server.
use websocket_proxy.Base.{◌≡◌, refl, some, [], ◌∷◌, first, nat_eq, arith}
use websocket_proxy.Base.Maps.{find, erase, emplace, modify}
use websocket_proxy.Protocol.{Message, register, unregister}
use websocket_proxy.Server.State.{Server, first_heartbeat, with_posted}
use websocket_proxy.Server.Clients.{
  handle_client_registration, unregister_client, unregister_found, detach, close_each,
  forget_client,
}
use websocket_proxy.Server.Loop.{
  process_client_message, handle_client_message, next_round, remove_closed_sockets,
}
use websocket_proxy.Server.Steps.{client_round, Reach, here, next, init}
use websocket_proxy.Server.Ending.{IsEnding, idle_ends}
use websocket_proxy.Examples.Process.{message}
use websocket_proxy.Examples.Client.{step_clock}

-- Client 7 registers and leaves.
abbrev joining : Message
joining = message 7 (register (record { name = []; server_pid = 0; err = [] }))

abbrev registered : Server
registered =
    process_client_message (some joining) []
      (with_posted (first_heartbeat ∷ []) (init 5 step_clock))

abbrev left_alone : Server
left_alone =
    process_client_message (some (message 7 unregister)) []
      (with_posted (first_heartbeat ∷ []) registered)

left_alone_reached : Reach (λ _. Unit {0}) (init 5 step_clock) left_alone
unfolding init process_client_message handle_client_message next_round remove_closed_sockets
    handle_client_registration
left_alone_reached =
    next (next here tt (client_round (first_heartbeat ∷ []) (some joining) [] first)) tt
      (client_round (first_heartbeat ∷ []) (some (message 7 unregister)) [] first)

idle_ends_example : (left_alone.clients ≡ []) × IsEnding (first_heartbeat ∷ []) left_alone
unfolding init process_client_message handle_client_message next_round remove_closed_sockets
    handle_client_registration unregister_client unregister_found detach close_each forget_client
    find modify emplace erase
idle_ends_example =
    idle_ends 5 step_clock left_alone (first_heartbeat ∷ []) 20 left_alone_reached refl refl
      (omega arith) (omega arith) (omega arith)
