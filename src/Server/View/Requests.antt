-- ===== src/Server/View/Requests.antt =====
-- How opening, subscribing and sending (src/websocket_proxy.cpp) move the registry.
use websocket_proxy.Base.{
  ℕ, suc, ◌+◌, ◌*◌, ◌%◌, ◌^◌, ◌<◌, ◌≡◌, refl, ap, sym, subst, ◌∙◌, fun_ext, arith, Bool, true,
  Option, none, some, List, ◌∷◌, nat_eq, text_eq, ◌==◌, Option-case, if-case, Option-cases, inl,
  inr, map, Takes, first, later,
}
use websocket_proxy.Base.Maps.{contains, find, emplace}
use websocket_proxy.Base.Sets.{insert}
use websocket_proxy.Protocol.{Message, Body, open_ws, WsOpen, c_string}
use websocket_proxy.Url.{parse_url}
use websocket_proxy.Registry.{
  Registry, Name, named, Moves, stay, then_move, count, create, abandon, enter,
}
use websocket_proxy.Server.State.{
  Websocket, WebsocketKey, Server, Opening, connecting, connected, key_of, key_eq, update,
  put_socket, socket_id, is_live, with_opening,
}
use websocket_proxy.Server.Sockets.{
  ErrorCode, fail, name_port, OpenResult, opened, resolve_failed, connect_failed, sni_failed,
  ssl_handshake_failed, handshake_failed,
}
use websocket_proxy.Server.Clients.{get_client}
use websocket_proxy.Server.Requests.{
  Outcome, returned, thrown, new_websocket, open_new_ws, join_socket, live_socket, request_key,
  open_for, handle_open, open_begin, open_succeeded, opened_request, open_end,
}
use websocket_proxy.Server.View.{
  name_of, names, names-update, view, ticket, requested, Leads, Leads-refl, Leads-trans, Leads-same,
  Leads-put_socket, Leads-at, Leads-set_status, SameView, SameView-trans, SameView-set_status,
  SameView-name_port,
}
use websocket_proxy.Server.View.Sockets.{Leads-name_port, Leads-fail}
use websocket_proxy.Server.View.Clients.{Leads-get_client}

-- Ids are left: the next one does not wrap around.
pub record HasIds (s : Server) : Type 0 where
  pub pid : s.pid < 2 ^ 32
  pub count : s.websocket_id + 1 < 2 ^ 32

-- Whether a handler returns or throws.
abbrev pub state_of : Outcome → Server
state_of (returned s) = s
state_of (thrown s) = s

next_count_lem : (s : Server) → HasIds s → (s.websocket_id + 1) % 2 ^ 32 ≡ s.websocket_id + 1
next_count_lem s h = omega arith

next_id :
    (s : Server)
    → HasIds s
    → socket_id s.pid ((s.websocket_id + 1) % 2 ^ 32) ≡ s.pid * 10000 + (s.websocket_id + 1)
next_id s h = omega arith

names-put :
    (heap : ℕ → Option Websocket) (a : ℕ) (w : Websocket)
    → names (update heap a w) ≡ named (names heap) a (name_of w)
names-put heap a w = fun_ext λ j.
    if-case
      (λ o. elim o [ none ↦ none | some v ↦ some (name_of v) ] ≡ named (names heap) a (name_of w) j)
      (a == j) (some w) (heap j) (λ same. rw (same, named)) (λ other. rw (other, named, names))

-- A new object with the next id, and its opening.
Leads-created :
    (s : Server) (w : Websocket) (n : ℕ) (msg : Message)
    → n ≡ s.websocket_id + 1
    → w.id ≡ s.pid * 10000 + (s.websocket_id + 1)
    → key_of w ≡ requested msg.body
    → Leads s (
        put_socket s.allocated w (record s {
          websocket_id = n;
          allocated = suc s.allocated;
          opening = record { address = s.allocated; message = msg } ∷ s.opening;
        }))
Leads-created s w n msg p q k = record {
  moves =
      subst (Moves (view s))
        (λ i. record (view s) {
          names = made i;
          opening =
              record { address = s.allocated; key = requested msg.body } ∷ map ticket s.opening;
          top = sym p i;
          allocated = suc s.allocated;
        })
        (then_move stay (create (requested msg.body)));
}
  where
    new_name : Name
    new_name = record { id = s.pid * 10000 + (s.websocket_id + 1); key = requested msg.body }

    same_name : name_of w ≡ new_name
    same_name = λ i. record { id = q i; key = k i }

    made : named (names s.heap) s.allocated new_name ≡ names (update s.heap s.allocated w)
    made =
        ap (named (names s.heap) s.allocated) (sym same_name) ∙ sym (names-put s.heap s.allocated w)

Leads-open_new_ws :
    (msg : Message) (req : WsOpen) (s : Server)
    → HasIds s
    → Leads s (state_of (open_new_ws msg req s))
unfolding open_new_ws
Leads-open_new_ws msg req s h =
    Option-case (λ o. Leads s (state_of o)) (parse_url (c_string 512 req.url)) _ _
      (λ _. record { moves = rw (next_count_lem s h) (then_move stay count) })
      λ at _.
        Leads-same
          (Leads-created s (new_websocket req at (socket_id s.pid ((s.websocket_id + 1) % 2 ^ 32)))
            ((s.websocket_id + 1) % 2 ^ 32)
            (record msg { body = open_ws (record req { new_connection = true }) })
            (next_count_lem s h) (next_id s h) refl)
          refl

Leads-join_socket :
    (msg : Message) (req : WsOpen) (a : ℕ) (w : Websocket) (s : Server)
    → s.heap a ≡ some w
    → Leads s (join_socket msg req a w s)
unfolding join_socket
Leads-join_socket msg req a w s e =
    Leads-same (Leads-put_socket a w (record w { clients = insert msg.pid w.clients }) s e refl)
      refl

pub live_socket-heap :
    (key : WebsocketKey) (s : Server) (a : ℕ) (w : Websocket)
    → live_socket key s ≡ some (a, w)
    → (find key s.by_key ≡ some a) × (s.heap a ≡ some w) × (is_live w.status ≡ true)
live_socket-heap key s a w e = elim (Option-cases (find key s.by_key)) [
  | inl f ↦ ground arith
  | inr (b, f) ↦ elim (Option-cases (s.heap b)) [ inl g ↦ ground arith | inr (v, g) ↦ ground arith ]
]

get_client-HasIds : (pid : ℕ) (s : Server) → HasIds s → HasIds (get_client pid s).1
unfolding get_client
get_client-HasIds pid s h =
    if-case (λ (r : Bool × Server). HasIds r.1) (contains pid s.clients) _ _
      (λ _. record { pid = h.pid; count = h.count }) (λ _. h)

pub Leads-handle_open :
    (msg : Message) (req : WsOpen) (s : Server)
    → HasIds s
    → Leads s (state_of (handle_open msg req s))
unfolding handle_open open_for
Leads-handle_open msg req s h =
    if-case (λ o. Leads s (state_of o)) (get_client msg.pid s).0 _ _
      (λ _. Leads-trans (Leads-get_client msg.pid s) (
        Option-case (λ o. Leads (get_client msg.pid s).1 (state_of o))
          (live_socket (request_key req) (get_client msg.pid s).1) _ _
          (λ _. Leads-open_new_ws msg req _ (get_client-HasIds msg.pid s h))
          λ (aw : ℕ × Websocket) e.
            Leads-join_socket msg req aw.0 aw.1 _
              (live_socket-heap (request_key req) (get_client msg.pid s).1 aw.0 aw.1 e).1))
      (λ _. Leads-same (Leads-get_client msg.pid s) refl)

pub Leads-open_begin : (a : ℕ) (s : Server) → Leads s (open_begin a s)
unfolding open_begin
Leads-open_begin a s = Leads-set_status connecting a s

Takes-map :
    {A B : Type 0} {a : A} {xs ys : List A} (f : A → B)
    → Takes a xs ys
    → Takes (f a) (map f xs) (map f ys)
Takes-map f first = first
Takes-map f (later p) = later (Takes-map f p)

-- The coroutine's end takes its opening away.
module _ (s : Server) (o : Opening) (os : List Opening) (t : Takes o s.opening os) where
  Leads-abandon : Leads s (with_opening os s)
  Leads-abandon = record {
    moves = then_move stay (abandon (ticket o) (map ticket os) (Takes-map ticket t));
  }

  Leads-failed :
      (u : Server) (ec : ErrorCode)
      → Leads (with_opening os s) u
      → Leads s (fail o.address ec (some o.message) u)
  Leads-failed u ec l =
      Leads-trans Leads-abandon (Leads-trans l (Leads-fail o.address ec (some o.message) u))

  -- The callback of an opening that succeeded registers its object.
  module _ (req : WsOpen) (k : requested o.message.body ≡ request_key req) (u : Server)
      (v : SameView (with_opening os s) u) where
    Leads-entered :
        (w : Websocket)
        → u.heap o.address ≡ some w
        → Leads s (record u {
          by_key = emplace (request_key req) o.address u.by_key;
          by_id = emplace w.id o.address u.by_id;
        })
    Leads-entered w e =
        Leads-same
          {t = record s {
            opening = os;
            by_key = emplace (requested o.message.body) o.address s.by_key;
            by_id = emplace w.id o.address s.by_id;
          }}
          (record {
            moves = then_move stay (
                enter (ticket o) (map ticket os) (name_of w) (Takes-map ticket t)
                  (ap (λ (r : Registry). r.names o.address) (sym v.same) ∙ rw (e, names)));
          })
          (rw k (
            ap
              (λ (r : Registry). record r {
                by_key = emplace (request_key req) o.address r.by_key;
                by_id = emplace w.id o.address r.by_id;
              })
              v.same))

    Leads-open_succeeded : Leads s (open_succeeded o.address o.message req u)
    unfolding open_succeeded
    Leads-open_succeeded = Leads-at (u.heap o.address) _ (Leads-same Leads-abandon v.same) λ w e.
        Leads-same (Leads-entered w e) λ i. record (view (entered w)) {
          names = names-update u.heap o.address w (joined w) e refl i;
        }
      where
        entered : Websocket → Server
        entered w = record u {
          by_key = emplace (request_key req) o.address u.by_key;
          by_id = emplace w.id o.address u.by_id;
        }

        joined : Websocket → Websocket
        joined w = record w { clients = insert o.message.pid w.clients }

  Leads-opened_request :
      (body : Body) (u : Server)
      → requested o.message.body ≡ requested body
      → SameView (with_opening os s) u
      → Leads s (opened_request o.address o.message body u)
  Leads-opened_request (open_ws req) u k v = Leads-open_succeeded req k u v
  Leads-opened_request _ u k v = Leads-same Leads-abandon v.same

  pub Leads-open_end :
      (r : OpenResult) → Leads s (open_end o.address o.message r (with_opening os s))
  unfolding open_end
  Leads-open_end (opened port) = Leads-opened_request o.message.body _ refl (record {
    same =
        (SameView-trans (SameView-name_port o.address port (with_opening os s)) (
          SameView-set_status connected o.address
            (name_port o.address port (with_opening os s)))).same;
  })
  Leads-open_end (resolve_failed ec) = Leads-failed _ ec (Leads-refl _)
  Leads-open_end (connect_failed ec) = Leads-failed _ ec (Leads-refl _)
  Leads-open_end (sni_failed ec) = Leads-failed _ ec (Leads-refl _)
  Leads-open_end (ssl_handshake_failed port ec) =
      Leads-failed _ ec (Leads-name_port o.address port _)
  Leads-open_end (handshake_failed port ec) = Leads-failed _ ec (Leads-name_port o.address port _)
