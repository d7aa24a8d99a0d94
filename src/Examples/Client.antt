-- ===== src/Examples/Client.antt =====
-- A client.
use websocket_proxy.Base.{
  All, Bool, List, ℕ, zero, suc, ◌+◌, ◌*◌, ◌≡◌, refl, true, false, some, [], ◌∷◌, Text, arith,
  if◌then◌else◌, ltb, nat_eq, text_eq,
}
use websocket_proxy.Protocol.{
  close_ws, Status, pending, success, Message, open_ws, ws_data, WsOpen, c_string,
}
use websocket_proxy.Examples.Urls.{codes}
use websocket_proxy.Examples.Process.{message, wants, good_url}
use websocket_proxy.Client.State.{
  Client, new_client_of, send_request, unregister_from, client_heartbeat,
}
use websocket_proxy.Client.Waiting.{
  Run, finished, aborted, unfinished, wait_for_response, wait_loop,
}
use websocket_proxy.Client.Connecting.{
  Reply, Setup, connect, spawn_proxy_server, launch, attach, register_client, registered,
}
use websocket_proxy.Client.Requests.{
  open_web_socket, close_web_socket, send_open_message, send_open, opened_socket,
}
use websocket_proxy.Client.Worker.{do_work, work_round}
use websocket_proxy.Client.Steps.{Act, opens, works, none_yet, and_then}
use websocket_proxy.Base.Sets.{has, insert, remove}
use websocket_proxy.Client.Noticed.{reads, do_work-noticed}
use websocket_proxy.Client.Faithful.{IsFaithful, Acts-IsFaithful}
use websocket_proxy.Client.Sent.{IsSent}
use websocket_proxy.Client.Sending.{Acts-IsSent}
use websocket_proxy.Client.Halting.{Halts}
use websocket_proxy.Client.Halting.Loops.{IsRunning}
use websocket_proxy.Client.Halting.Calls.{longest, IsRunning-le, Halts-open_web_socket}
use websocket_proxy.Client.Answered.{Waited, wait_for_response-IsAnswer}
use websocket_proxy.Client.Silence.{GivesUp, work_round-silent}
use websocket_proxy.Client.Answers.{
  IsUnregistered, IsLimited, close_web_socket-unregisters, open_web_socket-limits,
}

-- A clock that shows 6000 milliseconds more at each reading.
abbrev pub step_clock : ℕ → ℕ
step_clock n = 6000 * n

-- Client 7 is registered with server 5 and has socket 50001.
abbrev pub listening : Client
listening = record (new_client_of 7 (codes "reader") step_clock) {
  reads = 10;
  server_pid = 5;
  last_heartbeat_time = 54000;
  last_server_heartbeat_time = 6000;
  websockets = 50001 ∷ [];
}

step_clock-IsRunning : IsRunning longest step_clock
step_clock-IsRunning n = record {
  at = n + 6;
  later = omega arith;
  late = omega arith;
  still_late = omega arith;
}

-- The status is pending at two loads, and then a success.
abbrev after_two : ℕ → Status
after_two n = if ltb n 2 then pending else success

wait_for_response-IsAnswer_example : Waited 20000 after_two listening
wait_for_response-IsAnswer_example =
    wait_for_response-IsAnswer 20000 after_two listening
      (IsRunning-le 20000 longest step_clock (omega arith) step_clock-IsRunning)

-- It finds the answer at load 2.
abbrev outcome : Run (Bool × ℕ × Client) → Bool × ℕ
outcome (finished (answered, k, d)) = (answered, k)
outcome aborted = (false, 100)
outcome unfinished = (false, 200)

answered_at : outcome (wait_for_response 10 20000 after_two listening) ≡ (true, 2)
unfolding wait_for_response wait_loop client_heartbeat send_request
answered_at = refl

abbrev after_one : ℕ → Status
after_one n = if ltb n 1 then pending else success

-- The state that a call leaves.
abbrev left : {A : Type 0} → Run (A × Client) → Client
left (finished r) = r.1
left aborted = listening
left unfinished = listening

close_web_socket-unregisters_example :
    IsUnregistered (left (close_web_socket 10 after_one 50001 listening))
unfolding close_web_socket unregister_from send_request wait_for_response wait_loop client_heartbeat
close_web_socket-unregisters_example =
    close_web_socket-unregisters 10 after_one 50001 listening _ refl

abbrev pub setup : Setup
setup = record {
  is_running = true;
  is_launched = true;
  running = λ _. true;
  has_server_queue = λ _. true;
  has_client_queue = true;
  reading_index = 1;
  ready = λ _. true;
  reply = record { status = λ _. success; answer = record { name = []; server_pid = 5; err = [] } };
}

abbrev pub reply : Reply WsOpen
reply = record { status = λ _. success; answer = record (wants good_url) { id = 50001 } }

-- A text of 600 letters.
abbrev long_key : ℕ → Text
long_key zero = []
long_key (suc n) = b'k' ∷ long_key n

-- A URL of 300 bytes with a short api_key.
open_web_socket-limits_example : IsLimited 10 setup reply (long_key 300) (codes "key") listening
open_web_socket-limits_example =
    open_web_socket-limits 10 setup reply (long_key 300) (codes "key") listening (omega arith)

work_round-silent_example : GivesUp listening
work_round-silent_example =
    work_round-silent listening refl (omega arith) (omega arith)
      (record { at = 10; later = omega arith; late = omega arith; still_late = omega arith })

-- A client connects and opens a socket, reads that the socket is open, and reads data of it.
abbrev pub unconnected : Client
unconnected = new_client_of 7 (codes "reader") step_clock

abbrev pub has_opened : Client
has_opened = left (open_web_socket 10 setup reply good_url (codes "key") unconnected)

abbrev open_notice : Message
open_notice = message 5 (open_ws (record (wants good_url) { client_pid = 7; id = 50001 }))

abbrev data_notice : Message
data_notice =
    message 5 (ws_data (record { id = 50001; len = 2; remaining = 0; bytes = codes "[]" }))

Act-has_opened : Act unconnected has_opened
unfolding open_web_socket send_open_message connect spawn_proxy_server launch attach register_client
    c_string wait_for_response wait_loop registered send_open opened_socket client_heartbeat
    send_request
Act-has_opened = opens 10 setup reply good_url (codes "key") (50001, false) refl

Acts-IsFaithful_example :
    IsFaithful (work_round (some data_notice) (work_round (some open_notice) has_opened))
Acts-IsFaithful_example = Acts-IsFaithful 7 (codes "reader") step_clock (
    and_then (and_then (and_then none_yet Act-has_opened) (works (some open_notice)))
      (works (some data_notice)))

Acts-IsSent_example :
    All (IsSent 7) (work_round (some data_notice) (work_round (some open_notice) has_opened)).calls
Acts-IsSent_example = Acts-IsSent 7 (codes "reader") step_clock (
    and_then (and_then (and_then none_yet Act-has_opened) (works (some open_notice)))
      (works (some data_notice)))

Halts-open_web_socket_example :
    Halts (λ f. open_web_socket f setup reply good_url (codes "key") listening)
Halts-open_web_socket_example =
    Halts-open_web_socket setup reply good_url (codes "key") listening step_clock-IsRunning

-- Socket 50002 opens for client 7, another server closes 50002, and the client's own one closes 50001.
abbrev notices : List Message
notices =
    message 5 (open_ws (record (wants good_url) { client_pid = 7; id = 50002 }))
    ∷ message 6 (close_ws (record { id = 50002 }))
    ∷ message 5 (close_ws (record { id = 50001 }))
    ∷ []

do_work-noticed_example : (do_work (reads notices) listening).websockets ≡ 50002 ∷ []
unfolding insert remove has
do_work-noticed_example = do_work-noticed notices listening refl (omega arith)
