-- ===== src/Server/Core.antt =====
-- What the methods of `Websocket` and the callbacks for the clients (src/websocket.h,
-- src/websocket_proxy.cpp) leave alone: all but the objects, the clock, the time of the last
-- heartbeat and the effects.
use websocket_proxy.Base.{
  arith, drop, take, length, ◌++◌, ℕ, ◌≡◌, refl, ◌∙◌, Bool, not, ◌&&◌, Option, none, some, List,
  Text, if◌then◌else◌, Option-case, if-case,
}
use websocket_proxy.Base.Maps.{Map}
use websocket_proxy.Protocol.{Message, failed}
use websocket_proxy.Server.Telling.{
  Tells, Tells-quiet, Tells-refl, Tells-one, Tells-trans, Tells-on_ws_error, Tells-on_ws_data,
  Tells-on_ws_closed,
}
use websocket_proxy.Server.State.{
  Websocket, put_socket, ClientInfo, WebsocketKey, Server, Opening, Task, SocketStatus, is_live,
  disconnected, emit, respond,
}
use websocket_proxy.Server.Callbacks.{on_ws_data, on_ws_error, on_ws_closed}
use websocket_proxy.Server.Sockets.{
  close_socket, send_socket, fail, on_error, on_write, on_read, on_close, close_error, name_port,
  ErrorCode, set_status, is_disconnected, is_other, is_connected, is_closed,
}

pub record Core : Type 0 where
  pub clients : Map ℕ ClientInfo
  pub shutdown_time : ℕ
  pub run : Bool
  pub by_id : Map ℕ ℕ
  pub by_key : Map WebsocketKey ℕ
  pub posted : List Task
  pub opening : List Opening
  pub allocated : ℕ

abbrev pub core : Server → Core
core s = record {
  clients = s.clients;
  shutdown_time = s.shutdown_time;
  run = s.run;
  by_id = s.by_id;
  by_key = s.by_key;
  posted = s.posted;
  opening = s.opening;
  allocated = s.allocated;
}

pub record SameCore (s t : Server) : Type 0 where
  pub same : core t ≡ core s
  pub tells : Tells s t

pub SameCore-refl : (s : Server) → SameCore s s
SameCore-refl s = record { same = refl; tells = Tells-refl s }

pub SameCore-trans : {s t u : Server} → SameCore s t → SameCore t u → SameCore s u
SameCore-trans p q = record { same = q.same ∙ p.same; tells = Tells-trans p.tells q.tells }

pub SameCore-at :
    {A : Type 0} {s : Server} (o : Option A) (f : A → Server)
    → ((a : A) → SameCore s (f a))
    → SameCore s (elim o [ none ↦ s | some a ↦ f a ])
SameCore-at {s} o f h = Option-case (SameCore s) o s f (λ _. SameCore-refl s) (λ a _. h a)

pub SameCore-if :
    {s t u : Server} (b : Bool) → SameCore s t → SameCore s u → SameCore s (if b then t else u)
SameCore-if {s} b h k = if-case (SameCore s) b _ _ (λ _. h) (λ _. k)

pub SameCore-set_status : (x : SocketStatus) (a : ℕ) (s : Server) → SameCore s (set_status x a s)
SameCore-set_status x a s =
    SameCore-at (s.heap a) _
      λ w. record { same = refl; tells = Tells-quiet refl refl refl (omega arith) }

pub SameCore-name_port : (a port : ℕ) (s : Server) → SameCore s (name_port a port s)
unfolding name_port
SameCore-name_port a port s =
    SameCore-at (s.heap a) _
      λ w. record { same = refl; tells = Tells-quiet refl refl refl (omega arith) }

pub SameCore-close_socket : (a : ℕ) (s : Server) → SameCore s (close_socket a s)
unfolding close_socket
SameCore-close_socket a s = SameCore-at (s.heap a) _ λ w.
    SameCore-if (is_live w.status)
      (record { same = refl; tells = Tells-one refl refl refl (omega arith) tt }) (SameCore-refl s)

pub SameCore-send_socket : (a : ℕ) (bytes : Text) (s : Server) → SameCore s (send_socket a bytes s)
unfolding send_socket
SameCore-send_socket a bytes s =
    SameCore-at (s.heap a) _
      λ w. record { same = refl; tells = Tells-one refl refl refl (omega arith) tt }

pub SameCore-on_ws_error : (id : ℕ) (err : Text) (s : Server) → SameCore s (on_ws_error id err s)
unfolding on_ws_error
SameCore-on_ws_error id err s = record { same = refl; tells = Tells-on_ws_error id err s }

pub SameCore-fail :
    (a : ℕ) (ec : ErrorCode) (reply : Option Message) (s : Server) → SameCore s (fail a ec reply s)
unfolding fail
SameCore-fail a ec none s = SameCore-at (s.heap a) _ λ w.
    SameCore-trans (SameCore-on_ws_error w.id ec.message s)
      (SameCore-close_socket a (on_ws_error w.id ec.message s))
SameCore-fail a ec (some msg) s = SameCore-at (s.heap a) _ λ w.
    SameCore-trans
      {t = emit (respond (record msg { status = failed })) (on_ws_error w.id ec.message s)}
      (record {
        same = (SameCore-on_ws_error w.id ec.message s).same;
        tells =
            Tells-trans (Tells-on_ws_error w.id ec.message s)
              (Tells-one refl refl refl (omega arith) tt);
      })
      (SameCore-close_socket a
        (emit (respond (record msg { status = failed })) (on_ws_error w.id ec.message s)))

pub SameCore-on_error : (a : ℕ) (ec : ErrorCode) (s : Server) → SameCore s (on_error a ec s)
unfolding on_error
SameCore-on_error a ec s = SameCore-at (s.heap a) _ λ w.
    SameCore-if (not (is_disconnected w.status) && is_other ec.kind) (SameCore-fail a ec none s)
      (SameCore-refl s)

pub SameCore-on_write :
    (a : ℕ) (ec : Option ErrorCode) (n : ℕ) (s : Server) → SameCore s (on_write a ec n s)
unfolding on_write
SameCore-on_write a none n s =
    SameCore-at (s.heap a) _
      λ w. record { same = refl; tells = Tells-quiet refl refl refl (omega arith) }
SameCore-on_write a (some ec) n s = SameCore-on_error a ec s

pub SameCore-on_read :
    (a : ℕ) (ec : Option ErrorCode) (bytes : Text) (s : Server) → SameCore s (on_read a ec bytes s)
unfolding on_read
SameCore-on_read a none bytes s = SameCore-at (s.heap a) _ λ w.
    let read_told = told w in
    SameCore-if (is_connected w.status)
      (record {
        same = refl;
        tells = Tells-trans read_told (Tells-one refl refl refl (omega arith) tt);
      })
      (record { same = refl; tells = read_told })
  where
    kept : Websocket → Server
    kept w = put_socket a (record w { r_buffer = drop (length bytes) (w.r_buffer ++ bytes) }) s

    told :
        (w : Websocket)
        → Tells s (on_ws_data w.id (take (length bytes) (w.r_buffer ++ bytes)) 0 (kept w))
    told w =
        Tells-trans {t = kept w} (Tells-quiet refl refl refl (omega arith))
          (Tells-on_ws_data w.id _ 0 (kept w))
SameCore-on_read a (some ec) bytes s = SameCore-on_error a ec s

SameCore-close_error :
    (a : ℕ) (ec : Option ErrorCode) (s : Server) → SameCore s (close_error a ec s)
SameCore-close_error a none s = SameCore-refl s
SameCore-close_error a (some ec) s =
    SameCore-if (is_closed ec.kind) (SameCore-refl s) (SameCore-fail a ec none s)

pub SameCore-on_close : (a : ℕ) (ec : Option ErrorCode) (s : Server) → SameCore s (on_close a ec s)
unfolding on_close on_ws_closed
SameCore-on_close a ec s = SameCore-at (s.heap a) _ λ w.
    SameCore-trans (SameCore-close_error a ec s) (record {
      same = (SameCore-set_status disconnected a (close_error a ec s)).same;
      tells =
          Tells-trans (SameCore-set_status disconnected a (close_error a ec s)).tells
            (Tells-on_ws_closed w.id _);
    })
