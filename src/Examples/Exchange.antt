-- ===== src/Examples/Exchange.antt =====
-- A client and the server.
use websocket_proxy.Base.{ℕ, ◌≡◌, refl, none, some, List, [], ◌∷◌, ◌++◌, arith, nat_eq, text_eq}
use websocket_proxy.Base.Maps.{find}
use websocket_proxy.Base.Sets.{has}
use websocket_proxy.Protocol.{success, Message, subscribe, WsSubscription, c_string}
use websocket_proxy.Server.State.{Server, respond, async_read, async_write, publish}
use websocket_proxy.Server.Sockets.{on_read}
use websocket_proxy.Server.Requests.{returned}
use websocket_proxy.Server.Subscriptions.{symbol_of, request_of, handle_subscribe}
use websocket_proxy.Server.Loop.{dispatch}
use websocket_proxy.Server.Sharing.{seen}
use websocket_proxy.Server.Steps.{init}
use websocket_proxy.Server.Subscribing.{IsSubscribed}
use websocket_proxy.Client.State.{Call, publish_request, request, websocket_data}
use websocket_proxy.Client.Requests.{send_bytes, subscription}
use websocket_proxy.Client.Worker.{work_round}
use websocket_proxy.Exchange.Requests.{subscription-IsSubscribed, send_bytes-written}
use websocket_proxy.Exchange.Notices.{IsListening, on_read-delivered}
use websocket_proxy.Examples.Urls.{codes}
use websocket_proxy.Examples.Process.{good_url, one_socket, open_socket}
use websocket_proxy.Exchange.Opening.{IsOpened, open_web_socket-joins}
use websocket_proxy.Examples.Client.{listening, setup}

listening-IsListening : IsListening listening one_socket
unfolding init
listening-IsListening = record { server = refl; known = omega arith }

abbrev aapl : WsSubscription
aapl = subscription 50001 (codes "AAPL") (codes "{}") 1

subscription-IsSubscribed_example :
    (symbol_of aapl ≡ codes "AAPL")
    × (request_of aapl ≡ codes "{}")
    × IsSubscribed
        (request listening (subscribe aapl))
        aapl
        0
        open_socket
        (seen 7 one_socket)
        (handle_subscribe (request listening (subscribe aapl)) aapl one_socket)
unfolding find init
subscription-IsSubscribed_example =
    subscription-IsSubscribed 50001 (codes "AAPL") (codes "{}") 1 listening one_socket 0 open_socket
      (refl, (refl, (refl, (refl, tt)))) (omega arith) refl refl

send_bytes-written_example :
    (size : ℕ) × (msg reply : Message) × (t : Server) × ((send_bytes 50001
        (codes "{}")
        listening).calls
      ≡ publish_request size msg ∷ [])
    × (dispatch msg msg.body one_socket ≡ returned t)
    × (t.effects ≡ respond reply ∷ async_write 0 (codes "{}") ∷ [])
    × (reply.status ≡ success)
unfolding find init
send_bytes-written_example =
    send_bytes-written 50001 (codes "{}") listening one_socket 0 open_socket refl refl

on_read-delivered_example :
    (msg : Message) × (k : List Call) × ((on_read 0 none (codes "[]") one_socket).effects
      ≡ async_read 0 ∷ publish 28 msg ∷ [])
    × ((work_round (some msg) listening).calls ≡ k ++ websocket_data 50001 (codes "[]") 0 ∷ [])
unfolding init has
on_read-delivered_example =
    on_read-delivered listening one_socket listening-IsListening 0 open_socket (codes "[]") refl
      refl refl (omega arith) refl

-- Client 7 asks for the socket that it has.
open_web_socket-joins_example :
    IsOpened good_url (codes "key") 0 open_socket setup listening one_socket
unfolding init find c_string
open_web_socket-joins_example =
    open_web_socket-joins good_url (codes "key") 0 open_socket setup listening one_socket
      (omega arith) (omega arith) (omega arith) refl refl
