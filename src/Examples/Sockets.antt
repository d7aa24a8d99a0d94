-- ===== src/Examples/Sockets.antt =====
-- What goes over a connection.
use websocket_proxy.Base.{◌≡◌, refl, false, none, some, [], ◌∷◌, arith, nat_eq, ◌==◌, if◌then◌else◌}
use websocket_proxy.Protocol.{ws_data, subscribe, unsubscribe, WsSubscription, quotes, trades}
use websocket_proxy.Examples.Urls.{codes}
use websocket_proxy.Examples.Process.{message, open_socket, one_socket}
use websocket_proxy.Server.State.{Websocket, Server, Subscription, publish, async_read, async_write}
use websocket_proxy.Base.Maps.{find}
use websocket_proxy.Protocol.{c_string}
use websocket_proxy.Server.Steps.{init}
use websocket_proxy.Server.Callbacks.{reserve_message}
use websocket_proxy.Server.Sockets.{send_socket, on_write, on_read}
use websocket_proxy.Server.Subscriptions.{handle_subscribe, handle_unsubscribe}
use websocket_proxy.Server.Sharing.{seen}
use websocket_proxy.Server.Delivery.{send_socket-on_write, on_read-publishes}
use websocket_proxy.Server.Subscribing.{IsSubscribed, handle_subscribe-IsSubscribed}
use websocket_proxy.Server.Unsubscribing.{IsUnsubscribed, handle_unsubscribe-IsUnsubscribed}

send_socket-on_write_example :
    (send_socket 0
      (codes "def")
      (on_write 0 none 3 (send_socket 0 (codes "abc") one_socket))).effects
    ≡ async_write 0 (codes "def") ∷ async_write 0 (codes "abc") ∷ []
unfolding init
send_socket-on_write_example =
    send_socket-on_write 0 open_socket (codes "abc") (codes "def") one_socket refl refl

on_read-publishes_example :
    ((on_read 0 none (codes "abc") one_socket).heap 0 ≡ some open_socket)
    × ((on_read 0 none (codes "abc") one_socket).effects
        ≡ async_read 0
          ∷ publish 29 (
              reserve_message one_socket
                (ws_data (record { id = 50001; len = 3; remaining = 0; bytes = codes "abc" })))
          ∷ [])
unfolding init
on_read-publishes_example =
    on_read-publishes 0 open_socket (codes "abc") one_socket refl refl refl (omega arith)

abbrev asks_for : WsSubscription
asks_for = record {
  symbol = codes "SPY";
  id = 50001;
  request_len = 2;
  existing = false;
  type = trades;
  request = codes "{}";
}

handle_subscribe-IsSubscribed_example :
    IsSubscribed
      (message 7 (subscribe asks_for))
      asks_for
      0
      open_socket
      (seen 7 one_socket)
      (handle_subscribe (message 7 (subscribe asks_for)) asks_for one_socket)
unfolding find
handle_subscribe-IsSubscribed_example =
    handle_subscribe-IsSubscribed (message 7 (subscribe asks_for)) asks_for one_socket 0 open_socket
      refl refl

-- Clients 7 and 8 have the quotes of the symbol.
abbrev quoted : Subscription
quoted = record { type = quotes; clients = 7 ∷ 8 ∷ [] }

abbrev quoted_socket : Websocket
quoted_socket = record open_socket { subscriptions = (codes "SPY", quoted) ∷ [] }

abbrev quoting : Server
quoting = record one_socket { heap = λ a. if a == 0 then some quoted_socket else none }

handle_unsubscribe-IsUnsubscribed_example :
    IsUnsubscribed
      (message 7 (unsubscribe asks_for))
      asks_for
      0
      quoted_socket
      quoted
      (seen 7 quoting)
      (handle_unsubscribe (message 7 (unsubscribe asks_for)) asks_for quoting)
unfolding find c_string
handle_unsubscribe-IsUnsubscribed_example =
    handle_unsubscribe-IsUnsubscribed (message 7 (unsubscribe asks_for)) asks_for quoting 0
      quoted_socket quoted refl refl refl
