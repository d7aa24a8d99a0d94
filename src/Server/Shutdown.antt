-- ===== src/Server/Shutdown.antt =====
-- The end of the process (src/websocket_proxy.cpp, `shutdown`).
use websocket_proxy.Base.{
  suc, ◌+◌, Bool, List, if◌then◌else◌, true, ap, sym, ◌∙◌, ℕ, ◌≡◌, refl, false, none, some, [], ◌∷◌,
  nat_eq, ◌==◌, Option-case, if-case, Bool-cases, inl, inr, arith,
}
use websocket_proxy.Base.Maps.{Map, find}
use websocket_proxy.Server.State.{
  Websocket, WebsocketKey, Server, disconnecting, is_live, put_socket, key_eq, emit, Effect,
  publish, publish_closed, respond, spawn, async_read, async_write, async_close, set_level,
  start_timer,
}
use websocket_proxy.Server.Sockets.{with_socket, close_socket}
use websocket_proxy.Server.Loop.{close_one, close_sockets, run_close_all}
use websocket_proxy.Server.View.{view}
use websocket_proxy.Server.View.Steps.{find-run_close_all}
use websocket_proxy.Server.Departure.Clients.{registered_object}
use websocket_proxy.Registry.Consistent.{IsConsistent}
use websocket_proxy.Server.Lifetime.{Handles-close_sockets}

-- The object at `b` is there, and is being closed or is closed.
abbrev pub IsShut : ℕ → Server → Type 0
IsShut b s = (w : Websocket) × (s.heap b ≡ some w) × (is_live w.status ≡ false)

-- How often the log asks to close the connection of the object at `b`.
abbrev pub closes : ℕ → List Effect → ℕ
closes b [] = 0
closes b (async_close a ∷ es) = let n = closes b es in if a == b then suc n else n
closes b (publish _ _ ∷ es) = closes b es
closes b (publish_closed _ ∷ es) = closes b es
closes b (respond _ ∷ es) = closes b es
closes b (spawn _ ∷ es) = closes b es
closes b (async_read _ ∷ es) = closes b es
closes b (async_write _ _ ∷ es) = closes b es
closes b (set_level _ ∷ es) = closes b es
closes b (start_timer ∷ es) = closes b es

abbrev pub one : Bool → ℕ
one live = if live then 1 else 0

-- The object at `b` goes on from `w` to `v`: it does not come to life again, and its connection is asked
-- to be closed just when its status says so.
pub record IsKept (b : ℕ) (w v : Websocket) (s t : Server) : Type 0 where
  pub dead : is_live w.status ≡ false → is_live v.status ≡ false
  pub asked :
      closes b t.effects + one (is_live v.status) ≡ closes b s.effects + one (is_live w.status)

-- No object goes away.
record Settles (s t : Server) : Type 0 where
  objects :
      (b : ℕ) (w : Websocket)
      → s.heap b ≡ some w
      → (v : Websocket) × (t.heap b ≡ some v) × IsKept b w v s t

Settles-refl : (s : Server) → Settles s s
Settles-refl s = record { objects = λ b w e. (w, e, record { dead = λ h. h; asked = refl }) }

Settles-trans : {s t u : Server} → Settles s t → Settles t u → Settles s u
Settles-trans p q = record {
  objects = λ b w e.
      let (v, f, k) = p.objects b w e in
      let (x, g, l) = q.objects b v f in
      (x, g, record { dead = λ h. l.dead (k.dead h); asked = l.asked ∙ k.asked });
}

-- The object at `a` is asked to be closed.
Settles-ask :
    (a : ℕ) (w : Websocket) (s : Server)
    → s.heap a ≡ some w
    → is_live w.status ≡ true
    → Settles s (emit (async_close a) (put_socket a (record w { status = disconnecting }) s))
Settles-ask a w s e live = record {
  objects = λ b u f. elim (Bool-cases (a == b)) [
    | inl same ↦
        let q : a ≡ b = ground arith in
        let p : w ≡ u = ground arith in
        (
          record w { status = disconnecting },
          ground arith,
          record { dead = λ _. refl; asked = rw (same, ← p, live) (omega arith) },
        )
    | inr different ↦ (u, ground arith, record { dead = λ h. h; asked = rw different refl })
  ];
}

Settles-close_socket : (a : ℕ) (s : Server) → Settles s (close_socket a s)
unfolding close_socket
Settles-close_socket a s =
    Option-case (Settles s) (s.heap a) s _ (λ _. Settles-refl s)
      λ w e. if-case (Settles s) (is_live w.status) _ _ (Settles-ask a w s e) (λ _. Settles-refl s)

Settles-close_one : (a : ℕ) (s : Server) → Settles s (close_one a s)
unfolding close_one
Settles-close_one a s =
    Option-case (Settles s) (s.heap a) s _ (λ _. Settles-refl s)
      λ w e. record {
        objects = λ b u f.
            let (v, g, k) = (Settles-close_socket a s).objects b u f in
            (v, g, record { dead = k.dead; asked = k.asked });
      }

Settles-close_sockets : (m : Map ℕ ℕ) (s : Server) → Settles s (close_sockets m s)
unfolding close_sockets
Settles-close_sockets [] s = Settles-refl s
Settles-close_sockets ((id, a) ∷ m) s =
    Settles-trans (Settles-close_one a s) (Settles-close_sockets m (close_one a s))

pub close_socket-shuts :
    (a : ℕ) (w : Websocket) (s : Server) → s.heap a ≡ some w → IsShut a (close_socket a s)
unfolding close_socket
close_socket-shuts a w s e = elim (Bool-cases (is_live w.status)) [
  | inl live ↦ (record w { status = disconnecting }, rw (e, with_socket, live) (ground arith), refl)
  | inr dead ↦ (w, rw (e, with_socket, dead) e, dead)
]

close_one-shuts :
    (a : ℕ) (w : Websocket) (s : Server) → s.heap a ≡ some w → IsShut a (close_one a s)
unfolding close_one
close_one-shuts a w s e =
    let (v, f, h) = close_socket-shuts a w s e in (v, rw (e, with_socket) f, h)

Settles-IsShut : {s t : Server} → Settles s t → (b : ℕ) → IsShut b s → IsShut b t
Settles-IsShut k b (w, e, h) = let (v, f, l) = k.objects b w e in (v, f, l.dead h)

close_sockets-IsShut :
    (m : Map ℕ ℕ) (b : ℕ) (s : Server) → IsShut b s → IsShut b (close_sockets m s)
unfolding close_sockets
close_sockets-IsShut [] b s h = h
close_sockets-IsShut ((id, a) ∷ m) b s h =
    close_sockets-IsShut m b (close_one a s) (Settles-IsShut (Settles-close_one a s) b h)

close_sockets-shuts :
    (id a : ℕ) (w : Websocket) (m : Map ℕ ℕ) (s : Server)
    → find id m ≡ some a
    → s.heap a ≡ some w
    → IsShut a (close_sockets m s)
unfolding close_sockets find
close_sockets-shuts id a w [] s f e = cc
close_sockets-shuts id a w ((j, b) ∷ m) s f e = elim (Bool-cases (j == id)) [
  | inl here_it_is ↦
      let q : a ≡ b = ground arith in
      close_sockets-IsShut m a (close_one b s) (rw (← q) (close_one-shuts a w s e))
  | inr further ↦
      let (v, g, _) = (Settles-close_one b s).objects a w e in
      close_sockets-shuts id a v m (close_one b s) (ground arith) g
]

some-injective : {v w : Websocket} → some v ≡ some w → v ≡ w
some-injective q = cc

-- The object at `a` is shut, and its connection was asked to be closed once more if it was alive.
abbrev pub IsClosedBy : ℕ → Server → Server → Type 0
IsClosedBy a s t =
    (w : Websocket) × (v : Websocket) × (s.heap a ≡ some w)
    × (t.heap a ≡ some v)
    × (is_live v.status ≡ false)
    × (closes a t.effects ≡ closes a s.effects + one (is_live w.status))

closed_by :
    (a : ℕ) (w : Websocket) (s t : Server)
    → s.heap a ≡ some w
    → Settles s t
    → IsShut a t
    → IsClosedBy a s t
closed_by a w s t e k (x, f, h) =
    let (v, g, l) = k.objects a w e in
    let q : v ≡ x = some-injective (sym g ∙ f) in
    let d : is_live v.status ≡ false = ap (λ (y : Websocket). is_live y.status) q ∙ h in
    (w, v, e, g, d, omega (arith, l.asked, ap one d))

-- The process stops, and knows no socket any more.
pub record IsDown (s t : Server) : Type 0 where
  pub run : t.run ≡ false
  pub by_id : t.by_id ≡ []
  pub by_key : (k : WebsocketKey) → find k t.by_key ≡ none
  pub sockets : (id a : ℕ) → find id s.by_id ≡ some a → IsClosedBy a s t

-- The function that shuts the process down, run in a consistent state, ends the loop of `run`, forgets
-- every socket by its id and by its key, and leaves no registered object alive: just those that were
-- alive, or being opened, have had their connection asked to be closed, once each.
pub run_close_all-IsDown : (s : Server) → IsConsistent (view s) → IsDown s (run_close_all s)
unfolding run_close_all
run_close_all-IsDown s c =
    let s' = record s { run = false } in
    record {
      run = (Handles-close_sockets s.by_id s').run;
      by_id = refl;
      by_key = find-run_close_all s c;
      sockets = λ id a f.
          let (w, e) = registered_object 0 s c id a f in
          closed_by a w s' (close_sockets s.by_id s') e (Settles-close_sockets s.by_id s')
            (close_sockets-shuts id a w s.by_id s' f e);
    }
