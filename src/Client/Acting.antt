-- ===== src/Client/Acting.antt =====
-- An act of a client is a call, which leaves the sockets alone, or a round of the worker
-- (include/websocket_proxy/websocket_proxy_client.h).
use websocket_proxy.Base.{◌≡◌, refl, ◌⊎◌, inl, inr}
use websocket_proxy.Client.State.{Client}
use websocket_proxy.Client.Worker.{work_round}
use websocket_proxy.Client.Requests.{open_web_socket_async}
use websocket_proxy.Client.Quiet.{Quiet}
use websocket_proxy.Client.Quiet.Calls.{returned-Quiet}
use websocket_proxy.Client.Quiet.Requests.{
  Quiet-open_web_socket, Quiet-send_open_message, Quiet-close_web_socket, Quiet-subscribe_to,
  Quiet-unsubscribe_from, Quiet-set_log_level, Quiet-send_bytes, Quiet-destroy,
}
use websocket_proxy.Client.Steps.{
  Act, opens, opens_async, closes, subscribes, unsubscribes, sets_level, sends, ends, works,
  act_read,
}

pub Act-cases : {c d : Client} (act : Act c d) → Quiet c d ⊎ (d ≡ work_round (act_read act) c)
unfolding open_web_socket_async
Act-cases {c} (opens fuel env reply url key a e) =
    inl (returned-Quiet _ a (Quiet-open_web_socket fuel env reply url key c) e)
Act-cases {c} (opens_async fuel env url key a e) =
    inl (returned-Quiet _ a (Quiet-send_open_message fuel env url key c) e)
Act-cases {c} (closes fuel status id a e) =
    inl (returned-Quiet _ a (Quiet-close_web_socket fuel status id c) e)
Act-cases {c} (subscribes fuel status id symbol bytes type a e) =
    inl (returned-Quiet _ a (Quiet-subscribe_to fuel status id symbol bytes type c) e)
Act-cases {c} (unsubscribes id symbol bytes a e) =
    inl (returned-Quiet _ a (Quiet-unsubscribe_from id symbol bytes c) e)
Act-cases {c} (sets_level level) = inl (Quiet-set_log_level level c)
Act-cases {c} (sends id bytes) = inl (Quiet-send_bytes id bytes c)
Act-cases {c} ends = inl (Quiet-destroy c)
Act-cases {c} (works read) = inr refl
