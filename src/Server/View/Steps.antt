-- ===== src/Server/View/Steps.antt =====
-- How the steps of the process (src/websocket_proxy.cpp) move the registry.
use websocket_proxy.Base.{
  ℕ, ◌≡◌, refl, ap, ◌∙◌, false, Option, none, some, List, [], ◌∷◌, nat_eq, ◌==◌, leb, Option-case,
  Option-cases, inl, inr, arith, Bool-cases, Takes-nil,
}
use websocket_proxy.Base.Maps.{Map, find, erase, find-erase}
use websocket_proxy.Protocol.{
  Message, Body, register, unregister, open_ws, close_ws, heartbeat, ws_request, ws_data, ws_error,
  subscribe, unsubscribe, log_level, unknown, sub64,
}
use websocket_proxy.Registry.{Registry, Name, stay, then_move, clear, drop_socket}
use websocket_proxy.Registry.Consistent.{IsConsistent, Moves-IsConsistent}
use websocket_proxy.Server.State.{
  WebsocketKey, Server, key_of, key_eq, key_beq_iff, now, tick, with_posted,
}
use websocket_proxy.Server.Requests.{Outcome, returned, thrown}
use websocket_proxy.Server.Loop.{
  dispatch, handle_client_message, remove_closed, remove_closed_sockets, next_round, finish_round,
  idle_limit, process_client_message, close_one, close_sockets, run_close_all, run_first_heartbeat,
  shutdown,
}
use websocket_proxy.Server.Steps.{
  Step, first_heartbeat_round, heartbeat_round, client_round, close_round, stop_round, signals,
  open_begins, open_ends, read_ends, write_ends, close_ends, Reach, here, next, init,
}
use websocket_proxy.Server.View.{
  name_of, names, view, Leads, Leads-refl, Leads-trans, Leads-same, Leads-at, Leads-if,
  SameView-close_socket,
}
use websocket_proxy.Server.View.Sockets.{Leads-on_read, Leads-on_write, Leads-on_close}
use websocket_proxy.Server.View.Clients.{
  Leads-get_client, Leads-handle_client_registration, Leads-unregister_client, Leads-handle_close,
  Leads-start_heartbeat, Leads-send_heartbeat,
}
use websocket_proxy.Server.View.Requests.{
  HasIds, state_of, Leads-handle_open, Leads-open_begin, Leads-open_end,
}
use websocket_proxy.Server.View.Subscriptions.{
  Leads-handle_subscribe, Leads-handle_unsubscribe, Leads-send_ws_request,
}

Leads-dispatch :
    (msg : Message) (b : Body) (s : Server) → HasIds s → Leads s (state_of (dispatch msg b s))
unfolding dispatch
Leads-dispatch msg (register reg) s h = Leads-handle_client_registration msg reg s
Leads-dispatch msg unregister s h = Leads-unregister_client msg.pid s
Leads-dispatch msg heartbeat s h = Leads-get_client msg.pid s
Leads-dispatch msg (open_ws req) s h = Leads-handle_open msg req s h
Leads-dispatch msg (close_ws req) s h = Leads-handle_close msg req.id s
Leads-dispatch msg (ws_request req) s h = Leads-send_ws_request msg req s
Leads-dispatch msg (subscribe req) s h = Leads-handle_subscribe msg req s
Leads-dispatch msg (unsubscribe req) s h = Leads-handle_unsubscribe msg req s
Leads-dispatch msg (log_level level) s h = Leads-same (Leads-refl s) refl
Leads-dispatch msg (ws_data _) s h = Leads-refl s
Leads-dispatch msg (ws_error _) s h = Leads-refl s
Leads-dispatch msg (unknown _) s h = Leads-refl s

Leads-remove_closed : (id : ℕ) (s : Server) → Leads s (remove_closed id s)
unfolding remove_closed
Leads-remove_closed id s = Leads-at (find id s.by_id) _ (Leads-refl s) λ a f.
    Leads-at (s.heap a) _ (Leads-refl s)
      λ w e. record { moves = then_move stay (drop_socket id a (name_of w) f (rw (e, names))) }

Leads-remove_closed_sockets : (ids : List ℕ) (s : Server) → Leads s (remove_closed_sockets ids s)
unfolding remove_closed_sockets
Leads-remove_closed_sockets [] s = Leads-refl s
Leads-remove_closed_sockets (id ∷ ids) s =
    Leads-trans (Leads-remove_closed id s) (Leads-remove_closed_sockets ids (remove_closed id s))

Leads-next_round : (s : Server) → Leads s (next_round s)
unfolding next_round
Leads-next_round s =
    Leads-if s.run
      (Leads-if (s.shutdown_time == 0) (Leads-same (Leads-refl s) refl) (
        Leads-if (leb idle_limit (sub64 (now s) s.shutdown_time)) (Leads-same (Leads-refl s) refl)
          (Leads-same (Leads-refl s) refl)))
      (Leads-refl s)

Leads-finish_round :
    (closed : List ℕ) (s : Server) (o : Outcome)
    → Leads s (state_of o)
    → Leads s (finish_round closed o)
Leads-finish_round closed s (returned t) l =
    Leads-trans l (Leads-trans (Leads-remove_closed_sockets closed t) (Leads-next_round _))
Leads-finish_round closed s (thrown t) l = l

Leads-process_client_message :
    (read : Option Message) (closed : List ℕ) (s : Server)
    → HasIds s
    → Leads s (process_client_message read closed s)
unfolding process_client_message handle_client_message
Leads-process_client_message none closed s h =
    Leads-finish_round closed s (returned s) (Leads-refl s)
Leads-process_client_message (some msg) closed s h =
    Leads-finish_round closed s (dispatch msg msg.body s) (Leads-dispatch msg msg.body s h)

Leads-run_first_heartbeat : (s : Server) → Leads s (run_first_heartbeat s)
unfolding run_first_heartbeat
Leads-run_first_heartbeat s =
    Leads-trans (Leads-same (Leads-refl s) refl)
      (Leads-trans (Leads-send_heartbeat (now s) (tick s)) (Leads-start_heartbeat _))

-- The loop over the sockets on shutdown changes no map but the one by key, and no name.
record SameButKeys (s t : Server) : Type 0 where
  same : view t ≡ record (view s) { by_key = t.by_key }

SameButKeys-close_one : (a : ℕ) (s : Server) → SameButKeys s (close_one a s)
unfolding close_one
SameButKeys-close_one a s =
    Option-case (SameButKeys s) (s.heap a) s _ (λ _. record { same = refl })
      λ w e. record {
        same =
            ap (λ (r : Registry). record r { by_key = erase (key_of w) s.by_key })
              (SameView-close_socket a s).same;
      }

SameButKeys-close_sockets : (m : Map ℕ ℕ) (s : Server) → SameButKeys s (close_sockets m s)
unfolding close_sockets
SameButKeys-close_sockets [] s = record { same = refl }
SameButKeys-close_sockets ((id, a) ∷ m) s = record {
  same =
      (SameButKeys-close_sockets m (close_one a s)).same
      ∙ ap (λ (r : Registry). record r { by_key = (close_sockets m (close_one a s)).by_key })
          (SameButKeys-close_one a s).same;
}

-- A key that leads nowhere goes on to lead nowhere, and the key of each object of the loop does so.
find-close_one :
    (k : WebsocketKey) (a : ℕ) (s : Server)
    → find k s.by_key ≡ none
    → find k (close_one a s).by_key ≡ none
unfolding close_one
find-close_one k a s h =
    Option-case (λ (t : Server). find k t.by_key ≡ none) (s.heap a) s _ (λ _. h)
      λ w e. ground (arith, find-erase (key_of w) k s.by_key)

find-close_sockets :
    (k : WebsocketKey) (m : Map ℕ ℕ) (s : Server)
    → find k s.by_key ≡ none
    → find k (close_sockets m s).by_key ≡ none
unfolding close_sockets
find-close_sockets k [] s h = h
find-close_sockets k ((id, a) ∷ m) s h =
    find-close_sockets k m (close_one a s) (find-close_one k a s h)

find-close_one_self :
    (n : Name) (a : ℕ) (s : Server)
    → names s.heap a ≡ some n
    → find n.key (close_one a s).by_key ≡ none
unfolding close_one
find-close_one_self n a s h =
    Option-case (λ (t : Server). find n.key t.by_key ≡ none) (s.heap a) s _ (λ e. ground arith)
      λ w e. ground (arith, find-erase (key_of w) n.key s.by_key, key_beq_iff (key_of w) n.key)

find-close_sockets_self :
    (id a : ℕ) (n : Name) (m : Map ℕ ℕ) (s : Server)
    → find id m ≡ some a
    → names s.heap a ≡ some n
    → find n.key (close_sockets m s).by_key ≡ none
unfolding close_sockets find
find-close_sockets_self id a n [] s f h = cc
find-close_sockets_self id a n ((j, b) ∷ m) s f h = elim (Bool-cases (j == id)) [
  | inl here_it_is ↦
      let q : b ≡ a = ground arith in
      find-close_sockets n.key m (close_one b s) (find-close_one_self n b s (rw q h))
  | inr further ↦
      find-close_sockets_self id a n m (close_one b s) (ground arith)
        (ap (λ (r : Registry). r.names a) (SameButKeys-close_one b s).same ∙ h)
]

module _ (s : Server) (c : IsConsistent (view s)) where
  -- On shutdown every key is forgotten, since each leads to a registered object of that key.
  pub find-run_close_all : (k : WebsocketKey) → find k (run_close_all s).by_key ≡ none
  unfolding run_close_all
  find-run_close_all k = elim (Option-cases (find k s.by_key)) [
    | inl nowhere ↦ find-close_sockets k s.by_id (record s { run = false }) nowhere
    | inr (a, f) ↦
        let (n, known, same, there) = c.keyed k a f in
        rw (← same)
          (find-close_sockets_self n.id a n s.by_id (record s { run = false }) there known)
  ]

  Leads-run_close_all : Leads s (run_close_all s)
  unfolding run_close_all
  Leads-run_close_all =
      let keys = (close_sockets s.by_id (record s { run = false })).by_key in
      Leads-same {t = record s { by_id = []; by_key = keys }}
        (record {
          moves = then_move stay (clear keys (unfold run_close_all in find-run_close_all));
        })
        (ap (λ (r : Registry). record r { by_id = [] })
          (SameButKeys-close_sockets s.by_id (record s { run = false })).same)

-- A step from a state whose registry is consistent, with a 32-bit process id and a counter of sockets
-- that the next one does not wrap, is a sequence of moves of the registry.
pub Step-Leads : {s t : Server} → Step s t → HasIds s → IsConsistent (view s) → Leads s t
Step-Leads {s} (first_heartbeat_round ts _) h c =
    Leads-trans (Leads-same (Leads-refl s) refl) (Leads-run_first_heartbeat (with_posted ts s))
Step-Leads {s} (heartbeat_round ts _) h c =
    Leads-trans (Leads-same (Leads-refl s) refl) (Leads-start_heartbeat (with_posted ts s))
Step-Leads {s} (client_round ts read closed _) h c = Leads-trans (Leads-same (Leads-refl s) refl) (
    Leads-process_client_message read closed (with_posted ts s)
      (record { pid = h.pid; count = h.count }))
Step-Leads {s} (close_round ts _) h c =
    Leads-trans (Leads-same (Leads-refl s) refl) (Leads-run_close_all (with_posted ts s) c)
Step-Leads {s} (stop_round ts _) h c = Leads-same (Leads-refl s) refl
Step-Leads {s} signals h c = unfold shutdown in Leads-same (Leads-refl s) refl
Step-Leads {s} (open_begins o os _) h c = Leads-open_begin o.address s
Step-Leads {s} (open_ends o os r t) h c = Leads-open_end s o os t r
Step-Leads {s} (read_ends a ec bytes) h c = Leads-on_read a ec bytes s
Step-Leads {s} (write_ends a ec n) h c = Leads-on_write a ec n s
Step-Leads {s} (close_ends a ec) h c = Leads-on_close a ec s

IsConsistent-init : (pid : ℕ) (clock : ℕ → ℕ) → IsConsistent (view (init pid clock))
unfolding init find
IsConsistent-init pid clock = record {
  registered = λ id a f. cc;
  keyed = λ k a f. cc;
  waiting = λ o os t. elim (Takes-nil t) [ ];
  distinct = λ o p os ps t u. elim (Takes-nil t) [ ];
  unique = λ a b m n e f q. cc;
  numbered = λ a n e. cc;
}

-- In every state that the process reaches while its counter of sockets does not wrap, with a 32-bit
-- process id, the registry is consistent: an id leads to an object of that id, a key leads to an object
-- of that key which its id leads to as well, no two objects have one id, and an object whose opening
-- is under way has the key that was asked for, is not registered and is not opened twice.
pub Reach-IsConsistent :
    (pid : ℕ) (clock : ℕ → ℕ) {s : Server} → Reach HasIds (init pid clock) s → IsConsistent (view s)
Reach-IsConsistent pid clock here = IsConsistent-init pid clock
Reach-IsConsistent pid clock (next r h st) =
    let c = Reach-IsConsistent pid clock r in Moves-IsConsistent (Step-Leads st h c).moves c
