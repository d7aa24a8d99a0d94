-- ===== src/Server/Closing.antt =====
-- A client that closes a socket (src/websocket_proxy.cpp, `closeWs`).
use websocket_proxy.Base.{
  ◌≢◌, ◌⊎◌, inl, inr, ap, List, [], ◌∷◌, if◌then◌else◌, ◌==◌, Bool-cases, ℕ, ◌≡◌, refl, true, false,
  none, some, nat_eq, arith,
}
use websocket_proxy.Base.Maps.{Map, find, erase, contains, find-erase}
use websocket_proxy.Base.Sets.{remove, is_empty, has, has-remove}
use websocket_proxy.Protocol.{success, Message}
use websocket_proxy.Server.State.{
  Websocket, Server, Effect, is_live, async_close, respond, put_socket, key_of, key_eq, key_beq_iff,
}
use websocket_proxy.Server.Sockets.{with_socket, close_socket}
use websocket_proxy.Server.Clients.{close_socket_for, handle_close}
use websocket_proxy.Server.Sharing.{seen, get_client-found}
use websocket_proxy.Server.Delivery.{update_at}
use websocket_proxy.Server.Shutdown.{IsShut, close_socket-shuts}

-- The object of the socket without the client.
abbrev detached : ℕ → ℕ → Websocket → Server → Server
detached pid a w s = put_socket a (record w { clients = remove pid w.clients }) s

module _ (id pid a : ℕ) (w : Websocket) (s : Server) (f : find id s.by_id ≡ some a)
    (e : s.heap a ≡ some w) where
  close_socket_for-last :
      is_empty (remove pid w.clients) ≡ true
      → close_socket_for id pid s ≡ record (close_socket a (detached pid a w s)) {
        by_key = erase (key_of w) s.by_key;
        by_id = erase id s.by_id;
      }
  unfolding close_socket_for
  close_socket_for-last last = rw (f, close_socket_for, e, with_socket, last) refl

  close_socket_for-shared :
      is_empty (remove pid w.clients) ≡ false → close_socket_for id pid s ≡ detached pid a w s
  unfolding close_socket_for
  close_socket_for-shared more = rw (f, close_socket_for, e, with_socket, more) refl

find-erase_id : (id : ℕ) (m : Map ℕ ℕ) → find id (erase id m) ≡ none
find-erase_id id m = ground (arith, find-erase id id m)

find-erase_other : (id i : ℕ) (m : Map ℕ ℕ) → i ≢ id → find i (erase id m) ≡ find i m
find-erase_other id i m n = ground (arith, find-erase id i m)

-- The client was the only one: the socket is found neither by its id nor by its key any more, the others
-- are, and its connection is asked to be closed unless it is being closed or is closed already.
pub record IsClosed (msg : Message) (id a : ℕ) (w : Websocket) (s t : Server) : Type 0 where
  pub alone : (q : ℕ) → q ≢ msg.pid → has q w.clients ≡ false
  pub no_id : find id t.by_id ≡ none
  pub no_key : find (key_of w) t.by_key ≡ none
  pub others : (i : ℕ) → i ≢ id → find i t.by_id ≡ find i s.by_id
  pub shut : IsShut a t
  pub calls :
      t.effects
      ≡ respond (record msg { status = success })
        ∷ (if is_live w.status then async_close a ∷ s.effects else s.effects)

-- Another client has the socket: it stays registered, with its status and its subscriptions, and loses
-- the client and no other one; nothing is called but the answer.
pub record IsShared (msg : Message) (a : ℕ) (w : Websocket) (s t : Server) : Type 0 where
  pub other : (q : ℕ) × (q ≢ msg.pid) × (has q w.clients ≡ true)
  pub by_id : t.by_id ≡ s.by_id
  pub by_key : t.by_key ≡ s.by_key
  pub object :
      (v : Websocket) × (t.heap a ≡ some v)
      × (v.status ≡ w.status)
      × (v.subscriptions ≡ w.subscriptions)
      × ((q : ℕ) → has q v.clients ≡ (if msg.pid == q then false else has q w.clients))
  pub objects : (b : ℕ) → b ≢ a → t.heap b ≡ s.heap b
  pub calls : t.effects ≡ respond (record msg { status = success }) ∷ s.effects

nobody : (q : ℕ) (xs : List ℕ) → is_empty xs ≡ true → has q xs ≡ false
unfolding has
nobody q [] h = refl
nobody q (x ∷ xs) h = cc

somebody : (xs : List ℕ) → is_empty xs ≡ false → (q : ℕ) × (has q xs ≡ true)
unfolding has
somebody [] h = cc
somebody (x ∷ xs) h = (x, ground arith)

close_socket-calls :
    (a : ℕ) (w : Websocket) (s : Server)
    → s.heap a ≡ some w
    → (close_socket a s).effects
      ≡ (if is_live w.status then async_close a ∷ s.effects else s.effects)
unfolding close_socket
close_socket-calls a w s e = elim (Bool-cases (is_live w.status)) [
  | inl live ↦ rw (e, with_socket, live) refl
  | inr dead ↦ rw (e, with_socket, dead) refl
]

-- When a registered client closes a registered socket, either the client was the only one that had it,
-- and the socket is closed and forgotten, or another client has it, and it stays as it is for the
-- others. The answer is a success.
pub handle_close-leaves :
    (msg : Message) (id a : ℕ) (w : Websocket) (s : Server)
    → contains msg.pid s.clients ≡ true
    → find id s.by_id ≡ some a
    → s.heap a ≡ some w
    → IsClosed msg id a w s (handle_close msg id s) ⊎ IsShared msg a w s (handle_close msg id s)
unfolding handle_close
handle_close-leaves msg id a w s there f e =
    let t = seen msg.pid s in
    let w' : Websocket = record w { clients = remove msg.pid w.clients } in
    let d = detached msg.pid a w t in
    elim (Bool-cases (is_empty (remove msg.pid w.clients))) [
      | inl last ↦ inl (
          rw (get_client-found msg.pid s there, close_socket_for-last id msg.pid a w t f e last)
            (record {
              alone = λ q n.
                  let gone = nobody q (remove msg.pid w.clients) last in
                  ground (arith, has-remove msg.pid q w.clients);
              no_id = find-erase_id id s.by_id;
              no_key = ground (
                arith,
                find-erase (key_of w) (key_of w) s.by_key,
                key_beq_iff (key_of w) (key_of w),
              );
              others = λ i n. find-erase_other id i s.by_id n;
              shut = close_socket-shuts a w' d (update_at s.heap a w');
              calls =
                  ap (λ (es : List Effect). respond (record msg { status = success }) ∷ es)
                    (close_socket-calls a w' d (update_at s.heap a w'));
            }))
      | inr more ↦
          let (q, h) = somebody (remove msg.pid w.clients) more in
          inr (
            rw (get_client-found msg.pid s there, close_socket_for-shared id msg.pid a w t f e more)
              (record {
                other = (
                  q,
                  ground (arith, has-remove msg.pid q w.clients),
                  ground (arith, has-remove msg.pid q w.clients),
                );
                by_id = refl;
                by_key = refl;
                object =
                    (w', update_at s.heap a w', refl, refl, λ j. has-remove msg.pid j w.clients);
                objects = λ b n. ground arith;
                calls = refl;
              }))
    ]
