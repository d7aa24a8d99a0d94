-- ===== src/Server/Failing.antt =====
-- A connection that fails, from the error to the maps (src/websocket.h, `on_read`, `fail`, `close`,
-- `on_close`; src/websocket_proxy.cpp, `onWsError`, `onWsClosed`, `removeClosedSockets`).
use websocket_proxy.Base.{
  ℕ, ◌≡◌, ◌≢◌, refl, ap, true, false, none, some, ◌∷◌, Text, nat_eq, length, take, ◌%◌, ◌^◌,
}
use websocket_proxy.Base.Maps.{find, erase, find-erase_self, find-erase_other}
use websocket_proxy.Protocol.{Message, ws_error, close_ws}
use websocket_proxy.Server.State.{
  Websocket, Server, connected, disconnecting, disconnected, is_live, key_eq, key_of, publish,
  publish_closed, async_close, emit, put_socket, update,
}
use websocket_proxy.Server.Callbacks.{
  on_ws_error, on_ws_closed, send_message, send_message_at, reserve_message,
}
use websocket_proxy.Server.Sockets.{
  ErrorCode, is_other, is_disconnected, with_socket, set_status, close_socket, fail, on_error,
  on_read, on_close,
}
use websocket_proxy.Server.Loop.{remove_closed}
use websocket_proxy.Server.Delivery.{update_at}

-- The message that tells of the error, and the message that tells of the close.
abbrev pub error_notice : Websocket → ErrorCode → Server → Message
error_notice w e s = reserve_message s (
    ws_error (record {
      id = w.id;
      len = length e.message % 2 ^ 32;
      err = take (length e.message % 2 ^ 32) e.message;
    }))

abbrev pub close_notice : Websocket → Server → Message
close_notice w s = reserve_message s (close_ws (record { id = w.id }))

-- What the error, the end of the close and the removal leave.
pub record IsEnded (a : ℕ) (w : Websocket) (e : ErrorCode) (s t u v : Server) : Type 0 where
  pub closing : t.heap a ≡ some (record w { status = disconnecting })
  pub told_error :
      (n : ℕ) × (t.effects ≡ async_close a ∷ publish n (error_notice w e s) ∷ s.effects)
  pub closed : u.heap a ≡ some (record w { status = disconnected })
  pub told_close :
      (n : ℕ) × (u.effects ≡ publish_closed w.id ∷ publish n (close_notice w s) ∷ t.effects)
  pub unknown_id : find w.id v.by_id ≡ none
  pub unknown_key : find (key_of w) v.by_key ≡ none
  pub others : (j : ℕ) → j ≢ w.id → find j v.by_id ≡ find j s.by_id

module _ (a : ℕ) (w : Websocket) (e : ErrorCode) (bytes : Text) (s : Server) (h : s.heap a ≡ some w)
    (up : w.status ≡ connected) (o : is_other e.kind ≡ true) where
  -- The state after the error.
  abbrev failed_read : Server
  failed_read =
      emit (async_close a)
        (put_socket a (record w { status = disconnecting }) (on_ws_error w.id e.message s))

  closes_at :
      (n : ℕ) (msg : Message)
      → close_socket a (send_message n msg s)
        ≡ emit
            (async_close a)
            (put_socket a (record w { status = disconnecting }) (send_message n msg s))
  unfolding close_socket send_message send_message_at
  closes_at n msg =
      let live : is_live w.status ≡ true = ap is_live up in rw (h, with_socket, live) refl

  fails_at : fail a e none s ≡ failed_read
  unfolding fail on_ws_error
  fails_at = rw (h, with_socket) (closes_at _ _)

  on_read-failed : on_read a (some e) bytes s ≡ failed_read
  unfolding on_read on_error
  on_read-failed =
      let not_over : is_disconnected w.status ≡ false = ap is_disconnected up in
      rw (h, with_socket, not_over, o, fails_at) refl

  abbrev ended : Server
  ended = on_ws_closed w.id (put_socket a (record w { status = disconnected }) failed_read)

  on_close-failed : on_close a none failed_read ≡ ended
  unfolding on_close
  on_close-failed =
      let there : failed_read.heap a ≡ some (record w { status = disconnecting }) =
        update_at s.heap a (record w { status = disconnecting }) in
      let status : set_status disconnected a failed_read
          ≡ put_socket a (record w { status = disconnected }) failed_read =
        rw (there, with_socket) refl in
      rw (there, with_socket) (ap (on_ws_closed w.id) status)

  -- The maps without the socket.
  abbrev removed : Server
  removed = record ended { by_key = erase (key_of w) s.by_key; by_id = erase w.id s.by_id }

  remove_closed-ended : find w.id s.by_id ≡ some a → remove_closed w.id ended ≡ removed
  unfolding remove_closed on_ws_closed on_ws_error send_message send_message_at
  remove_closed-ended f =
      let there : ended.heap a ≡ some (record w { status = disconnected }) =
        update_at failed_read.heap a (record w { status = disconnected }) in
      rw (f, remove_closed, there, with_socket) refl

-- When a read fails on an open socket, with another error than the end of the connection, the clients
-- are told of the error, and the connection is closed; when that close has ended, they are told of the
-- close; and when the main loop takes note of it, the socket is under neither its id nor its key any
-- more, and every other id leads where it led.
pub on_read-IsEnded :
    (a : ℕ) (w : Websocket) (e : ErrorCode) (bytes : Text) (s : Server)
    → s.heap a ≡ some w
    → w.status ≡ connected
    → is_other e.kind ≡ true
    → find w.id s.by_id ≡ some a
    → (t u v : Server) × (on_read a (some e) bytes s ≡ t)
      × (on_close a none t ≡ u)
      × (remove_closed w.id u ≡ v)
      × IsEnded a w e s t u v
unfolding on_ws_closed on_ws_error send_message send_message_at
on_read-IsEnded a w e bytes s h up o f = (
  failed_read a w e bytes s h up o,
  ended a w e bytes s h up o,
  removed a w e bytes s h up o,
  on_read-failed a w e bytes s h up o,
  on_close-failed a w e bytes s h up o,
  remove_closed-ended a w e bytes s h up o f,
  record {
    closing = update_at s.heap a (record w { status = disconnecting });
    told_error = (_, refl);
    closed =
        update_at (update s.heap a (record w { status = disconnecting })) a
          (record w { status = disconnected });
    told_close = (_, refl);
    unknown_id = find-erase_self w.id s.by_id;
    unknown_key = find-erase_self (key_of w) s.by_key;
    others = λ j n. find-erase_other w.id j s.by_id n;
  },
)
