-- ===== src/Server/View.antt =====
-- The registry that a state of the proxy process stands for.
pub mod Sockets
pub mod Clients
pub mod Requests
pub mod Subscriptions
pub mod Steps
use websocket_proxy.Base.{
  ℕ, ◌*◌, ◌≡◌, refl, ap, sym, ◌++◌, ◌∙◌, subst, Option-case, if-case, fun_ext, Bool, true, false,
  Option, none, some, List, [], ◌∷◌, map, Text, nat_eq, ◌==◌, if◌then◌else◌, arith, Option-cases,
  Bool-cases, inl, inr,
}
use websocket_proxy.Protocol.{
  Body, register, unregister, open_ws, close_ws, heartbeat, ws_request, ws_data, ws_error,
  subscribe, unsubscribe, log_level, unknown, Message,
}
use websocket_proxy.Url.{colon}
use websocket_proxy.Base.Decimal.{to_string}
use websocket_proxy.Registry.{Name, Ticket, Registry, Moves, stay, Moves-trans}
use websocket_proxy.Server.State.{
  Websocket, WebsocketKey, Server, Opening, update, put_socket, key_of, key_eq, is_live,
  SocketStatus, disconnecting,
}
use websocket_proxy.Server.Callbacks.{on_ws_opened, on_ws_closed, on_ws_error, on_ws_data}
use websocket_proxy.Server.Sockets.{
  with_socket, close_socket, send_socket, fail, on_error, on_write, on_read, on_close, name_port,
  ErrorCode, set_status,
}
use websocket_proxy.Server.Requests.{request_key}

abbrev pub name_of : Websocket → Name
name_of w = record { id = w.id; key = key_of w }

abbrev pub names : (ℕ → Option Websocket) → ℕ → Option Name
names heap a = elim (heap a) [ none ↦ none | some w ↦ some (name_of w) ]

abbrev no_key : WebsocketKey
no_key = record { url = []; api_key = [] }

-- The key that a message asks for.
abbrev pub requested : Body → WebsocketKey
requested (open_ws req) = request_key req
requested _ = no_key

abbrev pub ticket : Opening → Ticket
ticket o = record { address = o.address; key = requested o.message.body }

abbrev pub view : Server → Registry
view s = record {
  by_id = s.by_id;
  by_key = s.by_key;
  names = names s.heap;
  opening = map ticket s.opening;
  base = s.pid * 10000;
  top = s.websocket_id;
  allocated = s.allocated;
}

-- A write that keeps an object's names is not seen.
pub names-update :
    (heap : ℕ → Option Websocket) (a : ℕ) (w w' : Websocket)
    → heap a ≡ some w
    → name_of w' ≡ name_of w
    → names (update heap a w') ≡ names heap
names-update heap a w w' e q = fun_ext λ j.
    if-case (λ o. elim o [ none ↦ none | some v ↦ some (name_of v) ] ≡ names heap j) (a == j)
      (some w') (heap j)
      (λ same.
        let there : heap j ≡ some w = subst (λ k. heap k ≡ some w) (ground arith) e in
        rw (there, names) (ap some q))
      (λ _. refl)

-- A handler leads from one state to another by moves of the registry.
pub record Leads (s t : Server) : Type 0 where
  pub moves : Moves (view s) (view t)

pub Leads-refl : (s : Server) → Leads s s
Leads-refl s = record { moves = stay }

pub Leads-trans : {s t u : Server} → Leads s t → Leads t u → Leads s u
Leads-trans p q = record { moves = Moves-trans p.moves q.moves }

-- What the view does not show may change.
pub Leads-same : {s t u : Server} → Leads s t → view u ≡ view t → Leads s u
Leads-same {s} p e = record { moves = subst (Moves (view s)) (sym e) p.moves }

pub Leads-put_socket :
    (a : ℕ) (w w' : Websocket) (s : Server)
    → s.heap a ≡ some w
    → name_of w' ≡ name_of w
    → Leads s (put_socket a w' s)
Leads-put_socket a w w' s e q =
    Leads-same (Leads-refl s) (λ i. record (view s) { names = names-update s.heap a w w' e q i })

-- What is done with a value that is there, by whether there is one.
pub Leads-at :
    {A : Type 0} {s t : Server} (o : Option A) (f : A → Server)
    → Leads s t
    → ((a : A) → o ≡ some a → Leads s (f a))
    → Leads s (elim o [ none ↦ t | some a ↦ f a ])
Leads-at {s} {t} o f h k = Option-case (Leads s) o t f (λ _. h) k

pub Leads-if : {s t u : Server} (b : Bool) → Leads s t → Leads s u → Leads s (if b then t else u)
Leads-if {s} b h k = if-case (Leads s) b _ _ (λ _. h) (λ _. k)

-- Two states with one view.
pub record SameView (s t : Server) : Type 0 where
  pub same : view t ≡ view s

pub SameView-put_socket :
    (a : ℕ) (w w' : Websocket) (s : Server)
    → s.heap a ≡ some w
    → name_of w' ≡ name_of w
    → SameView s (put_socket a w' s)
SameView-put_socket a w w' s e q = record {
  same = λ i. record (view s) { names = names-update s.heap a w w' e q i };
}

pub SameView-trans : {s t u : Server} → SameView s t → SameView t u → SameView s u
SameView-trans p q = record { same = q.same ∙ p.same }

pub SameView-set_status : (x : SocketStatus) (a : ℕ) (s : Server) → SameView s (set_status x a s)
SameView-set_status x a s =
    Option-case (SameView s) (s.heap a) s _ (λ _. record { same = refl })
      λ w e. SameView-put_socket a w (record w { status = x }) s e refl

pub SameView-name_port : (a port : ℕ) (s : Server) → SameView s (name_port a port s)
unfolding name_port
SameView-name_port a port s =
    Option-case (SameView s) (s.heap a) s _ (λ _. record { same = refl })
      λ w e.
        SameView-put_socket a w (record w { host = w.host ++ (colon ++ to_string port) }) s e refl

pub SameView-close_socket : (a : ℕ) (s : Server) → SameView s (close_socket a s)
unfolding close_socket
SameView-close_socket a s =
    Option-case (SameView s) (s.heap a) s _ (λ _. record { same = refl })
      λ w e.
        if-case (SameView s) (is_live w.status) _ _
          (λ _. record {
            same = (SameView-put_socket a w (record w { status = disconnecting }) s e refl).same;
          })
          (λ _. record { same = refl })

pub Leads-close_socket : (a : ℕ) (s : Server) → Leads s (close_socket a s)
Leads-close_socket a s = Leads-same (Leads-refl s) (SameView-close_socket a s).same

pub Leads-set_status : (x : SocketStatus) (a : ℕ) (s : Server) → Leads s (set_status x a s)
Leads-set_status x a s = Leads-same (Leads-refl s) (SameView-set_status x a s).same
