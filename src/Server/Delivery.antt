-- ===== src/Server/Delivery.antt =====
-- What goes out and comes in over a connection (src/websocket.h, `send`, `on_write`, `on_read`).
use websocket_proxy.Base.{
  take-length, ℕ, ◌+◌, ◌%◌, ◌^◌, ◌<◌, ◌≡◌, refl, true, false, Option, none, some, [], ◌∷◌, ◌++◌,
  Text, if◌then◌else◌, nat_eq, length, take, drop, arith,
}
use websocket_proxy.Protocol.{ws_data}
use websocket_proxy.Server.Subscriptions.{socket_of}
use websocket_proxy.Server.State.{
  Websocket, Server, connected, publish, async_read, async_write, put_socket, emit, update,
}
use websocket_proxy.Server.Callbacks.{
  get_message_size, data_size, reserve_message, on_ws_data, send_message, send_message_at,
}
use websocket_proxy.Server.Sockets.{
  ErrorCode, is_other, with_socket, is_disconnected, on_error, fail, send_socket, on_write, on_read,
  is_connected,
}
use websocket_proxy.Base.{not, ◌&&◌, Bool, Option-case}

-- The object at `a`, with other bytes that wait to be written.
abbrev pub queued : ℕ → Websocket → Text → Server → Server
queued a w bytes s = put_socket a (record w { w_buffer = bytes }) s

pub update_at : (h : ℕ → Option Websocket) (a : ℕ) (w : Websocket) → update h a w a ≡ some w
update_at h a w = ground arith

pub send_at :
    (a : ℕ) (w : Websocket) (bytes : Text) (s : Server)
    → s.heap a ≡ some w
    → send_socket a bytes s
      ≡ emit (async_write a (w.w_buffer ++ bytes)) (queued a w (w.w_buffer ++ bytes) s)
unfolding send_socket
send_at a w bytes s e = rw (e, with_socket) refl

write_at :
    (a : ℕ) (w : Websocket) (n : ℕ) (s : Server)
    → s.heap a ≡ some w
    → on_write a none n s ≡ queued a w (drop n w.w_buffer) s
unfolding on_write
write_at a w n s e = rw (e, with_socket) refl

drop-length : (xs : Text) → drop (length xs) xs ≡ []
drop-length [] = refl
drop-length (x ∷ xs) = drop-length xs

-- A second request that is sent before the first one has been written, on a socket where nothing
-- else waits, writes the first one's bytes again before its own.
pub send_socket-overlap :
    (a : ℕ) (w : Websocket) (p q : Text) (s : Server)
    → s.heap a ≡ some w
    → w.w_buffer ≡ []
    → (send_socket a q (send_socket a p s)).effects
      ≡ async_write a (p ++ q) ∷ async_write a p ∷ s.effects
send_socket-overlap a w p q s e b =
    let w' = record w { w_buffer = w.w_buffer ++ p } in
    rw
      (
        send_at a w p s e,
        send_at a w' q (emit (async_write a (w.w_buffer ++ p)) (queued a w (w.w_buffer ++ p) s))
            (update_at s.heap a w'),
        b,
      )
      refl

-- On a socket where nothing waits to be written, a request that has been written whole leaves
-- nothing behind: the next one is written alone.
pub send_socket-on_write :
    (a : ℕ) (w : Websocket) (p q : Text) (s : Server)
    → s.heap a ≡ some w
    → w.w_buffer ≡ []
    → (send_socket a q (on_write a none (length p) (send_socket a p s))).effects
      ≡ async_write a q ∷ async_write a p ∷ s.effects
send_socket-on_write a w p q s e b =
    let w' = record w { w_buffer = w.w_buffer ++ p } in
    let s' = emit (async_write a (w.w_buffer ++ p)) (queued a w (w.w_buffer ++ p) s) in
    let w'' = record w { w_buffer = drop (length p) (w.w_buffer ++ p) } in
    rw
      (
        send_at a w p s e,
        write_at a w' (length p) s' (update_at s.heap a w'),
        send_at a w'' q (queued a w' (drop (length p) (w.w_buffer ++ p)) s')
            (update_at s'.heap a w''),
        b,
        drop-length p,
      )
      refl

-- What `on_read` leaves of a connected socket, without an error.
read_at :
    (a : ℕ) (w : Websocket) (bytes : Text) (s : Server)
    → s.heap a ≡ some w
    → w.status ≡ connected
    → on_read a none bytes s
      ≡ emit (async_read a) (
          on_ws_data w.id
            (take (length bytes) (w.r_buffer ++ bytes))
            0
            (put_socket a (record w { r_buffer = drop (length bytes) (w.r_buffer ++ bytes) }) s))
unfolding on_read
read_at a w bytes s e c = rw (e, with_socket, c, is_connected) refl

data_size-bound : (n : ℕ) → n + 26 < 2 ^ 32 → get_message_size data_size (n % 2 ^ 32) ≡ n + 26
data_size-bound n h = omega arith

-- A message that is read on a connected socket whose read buffer is empty is published whole, with
-- its length, in 26 bytes more, as long as that fits uint32_t; the buffer is empty again, and the
-- next message is read.
pub on_read-publishes :
    (a : ℕ) (w : Websocket) (bytes : Text) (s : Server)
    → s.heap a ≡ some w
    → w.status ≡ connected
    → w.r_buffer ≡ []
    → length bytes + 26 < 2 ^ 32
    → ((on_read a none bytes s).heap a ≡ some (record w { r_buffer = [] }))
      × ((on_read a none bytes s).effects
          ≡ async_read a
            ∷ publish (length bytes + 26) (
                reserve_message s (
                  ws_data (record { id = w.id; len = length bytes; remaining = 0; bytes = bytes })))
            ∷ s.effects)
unfolding on_ws_data send_message send_message_at
on_read-publishes a w bytes s e c b fits =
    let small : length bytes % 2 ^ 32 ≡ length bytes = omega arith in
    rw
      (
        read_at a w bytes s e c,
        b,
        take-length bytes,
        drop-length bytes,
        data_size-bound (length bytes) fits,
        small,
        take-length bytes,
      )
      (update_at s.heap a (record w { r_buffer = [] }), refl)

-- The end of the connection by the other side changes nothing: a read or a write that ends with the
-- error closed or eof, or that is cancelled, leaves the whole state as it is. So the socket stays
-- registered under its id and key, with its status, and nothing is published.
pub on_read-closed :
    (a : ℕ) (ec : ErrorCode) (bytes : Text) (n : ℕ) (s : Server)
    → is_other ec.kind ≡ false
    → (on_read a (some ec) bytes s ≡ s) × (on_write a (some ec) n s ≡ s)
unfolding on_read on_write on_error
on_read-closed a ec bytes n s h = (on_error-closed, on_error-closed)
  where
    unchanged : (b : Bool) (t : Server) → (if b && is_other ec.kind then t else s) ≡ s
    unchanged true t = rw h
    unchanged false t = refl

    on_error-closed : on_error a ec s ≡ s
    on_error-closed =
        Option-case (λ t. t ≡ s) (s.heap a) s _ (λ _. refl)
          λ w _. unchanged (not (is_disconnected w.status)) (fail a ec none s)

-- The object of a socket that is found stands in the heap.
pub socket_at :
    (id : ℕ) (s : Server) (a : ℕ) (w : Websocket) → socket_of id s ≡ some (a, w) → s.heap a ≡ some w
socket_at id s a w f = ground arith
