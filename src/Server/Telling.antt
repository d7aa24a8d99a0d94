-- ===== src/Server/Telling.antt =====
-- What an operation of the process adds to the log, and what is published there
-- (src/websocket_proxy.cpp, `reserveMessage` and `sendMessageToClient` with their callers).
use websocket_proxy.Base.{
  ◌≤◌, ℕ, ◌+◌, ◌%◌, ◌^◌, ◌≡◌, refl, ap, sym, ◌∙◌, Bool, true, false, List, [], ◌∷◌, ◌++◌, Text, All,
  All-append, append_assoc, length, length-take, take, arith,
}
use websocket_proxy.Protocol.{
  Message, Body, register, unregister, open_ws, close_ws, heartbeat, ws_request, ws_data, ws_error,
  subscribe, unsubscribe, log_level, unknown, WsOpen,
}
use websocket_proxy.Layout.{wire_size}
use websocket_proxy.Server.State.{
  Server, Effect, publish, publish_closed, respond, spawn, async_read, async_write, async_close,
  set_level, start_timer,
}
use websocket_proxy.Server.Callbacks.{
  message_size, get_message_size, open_size, error_size, data_size, reserve_message, send_message,
  send_message_at, on_ws_opened, on_ws_closed, on_ws_error, on_ws_data,
}

-- What the clients' workers know how to read, and heartbeats.
abbrev pub is_notice : Body → Bool
is_notice (open_ws _) = true
is_notice (close_ws _) = true
is_notice heartbeat = true
is_notice (ws_data _) = true
is_notice (ws_error _) = true
is_notice (register _) = false
is_notice unregister = false
is_notice (ws_request _) = false
is_notice (subscribe _) = false
is_notice (unsubscribe _) = false
is_notice (log_level _) = false
is_notice (unknown _) = false

-- The bytes behind a structure are as many as its length says.
abbrev pub IsWhole : Body → Type 0
IsWhole (open_ws _) = Unit
IsWhole (close_ws _) = Unit
IsWhole heartbeat = Unit
IsWhole (ws_data d) = length d.bytes ≡ d.len
IsWhole (ws_error e) = length e.err ≡ e.len
IsWhole (register _) = Unit
IsWhole unregister = Unit
IsWhole (ws_request r) = length r.bytes ≡ r.len
IsWhole (subscribe r) = length r.request ≡ r.request_len
IsWhole (unsubscribe r) = length r.request ≡ r.request_len
IsWhole (log_level _) = Unit
IsWhole (unknown _) = Unit

-- What is published is a notice of the process, in as many bytes as its layout takes, over uint32_t.
pub record IsNotice (pid n : ℕ) (msg : Message) : Type 0 where
  pub sender : msg.pid ≡ pid
  pub size : n ≡ wire_size msg % 2 ^ 32
  pub kind : is_notice msg.body ≡ true
  pub whole : IsWhole msg.body

abbrev pub IsSound : ℕ → Effect → Type 0
IsSound pid (publish n msg) = IsNotice pid n msg
IsSound pid (publish_closed _) = Unit
IsSound pid (respond _) = Unit
IsSound pid (spawn _) = Unit
IsSound pid (async_read _) = Unit
IsSound pid (async_write _ _) = Unit
IsSound pid (async_close _) = Unit
IsSound pid (set_level _) = Unit
IsSound pid start_timer = Unit

-- An operation adds sound effects to the log, and takes none away; it may read the clock.
pub record Tells (s t : Server) : Type 0 where
  pub pid : t.pid ≡ s.pid
  pub clock : t.clock ≡ s.clock
  pub reads : s.reads ≤ t.reads
  pub new : List Effect
  pub sound : All (IsSound s.pid) new
  pub effects : t.effects ≡ new ++ s.effects

pub Tells-quiet :
    {s t : Server}
    → t.pid ≡ s.pid
    → t.effects ≡ s.effects
    → t.clock ≡ s.clock
    → s.reads ≤ t.reads
    → Tells s t
Tells-quiet p e c r = record { pid = p; clock = c; reads = r; new = []; sound = tt; effects = e }

pub Tells-refl : (s : Server) → Tells s s
Tells-refl s = Tells-quiet refl refl refl (omega arith)

-- The same, but for what is neither the process id, nor the clock, nor the log.
pub Tells-as :
    {s t u : Server}
    → Tells s t
    → u.pid ≡ t.pid
    → u.effects ≡ t.effects
    → u.clock ≡ t.clock
    → t.reads ≤ u.reads
    → Tells s u
Tells-as l p e c r = record {
  pid = p ∙ l.pid;
  clock = c ∙ l.clock;
  reads = omega (arith, l.reads, r);
  new = l.new;
  sound = l.sound;
  effects = e ∙ l.effects;
}

pub Tells-one :
    {s t : Server} {e : Effect}
    → t.pid ≡ s.pid
    → t.effects ≡ e ∷ s.effects
    → t.clock ≡ s.clock
    → s.reads ≤ t.reads
    → IsSound s.pid e
    → Tells s t
Tells-one {e = e} p q c r k = record {
  pid = p;
  clock = c;
  reads = r;
  new = e ∷ [];
  sound = (k, tt);
  effects = q;
}

pub Tells-two :
    {s t : Server} {e f : Effect}
    → t.pid ≡ s.pid
    → t.effects ≡ e ∷ f ∷ s.effects
    → t.clock ≡ s.clock
    → s.reads ≤ t.reads
    → IsSound s.pid e
    → IsSound s.pid f
    → Tells s t
Tells-two {e = e} {f = f} p q c r k l = record {
  pid = p;
  clock = c;
  reads = r;
  new = e ∷ f ∷ [];
  sound = (k, (l, tt));
  effects = q;
}

pub Tells-trans : {s t u : Server} → Tells s t → Tells t u → Tells s u
Tells-trans {s} {t} {u} p q = record {
  pid = q.pid ∙ p.pid;
  clock = q.clock ∙ p.clock;
  reads = omega (arith, p.reads, q.reads);
  new = q.new ++ p.new;
  sound = All-append (IsSound s.pid) q.new p.new (rw p.pid at q.sound) p.sound;
  effects =
      q.effects
      ∙ ap (λ (es : List Effect). q.new ++ es) p.effects
      ∙ sym (append_assoc q.new p.new s.effects);
}

-- The bytes that are copied, as many as the length that is written.
taken : (bytes : Text) → length (take (length bytes % 2 ^ 32) bytes) ≡ length bytes % 2 ^ 32
taken bytes = length-take (length bytes % 2 ^ 32) bytes (omega arith)

-- The messages that the process makes.
sized : (msg : Message) (n : ℕ) → wire_size msg ≡ n → n % 2 ^ 32 ≡ wire_size msg % 2 ^ 32
sized msg n e = ap (λ (k : ℕ). k % 2 ^ 32) (sym e)

pub heartbeat-IsNotice : (s : Server) → IsNotice s.pid message_size (reserve_message s heartbeat)
heartbeat-IsNotice s = record {
  sender = refl;
  size = sized (reserve_message s heartbeat) 10 refl;
  kind = refl;
  whole = tt;
}

pub open-IsNotice :
    (s : Server) (o : WsOpen)
    → IsNotice s.pid (get_message_size open_size 0) (reserve_message s (open_ws o))
open-IsNotice s o = record {
  sender = refl;
  size = sized (reserve_message s (open_ws o)) 1307 refl;
  kind = refl;
  whole = tt;
}

pub Tells-on_ws_opened : (id client_pid : ℕ) (s : Server) → Tells s (on_ws_opened id client_pid s)
unfolding on_ws_opened send_message send_message_at
Tells-on_ws_opened id client_pid s = Tells-one refl refl refl (omega arith) (open-IsNotice s _)

pub Tells-on_ws_closed : (id : ℕ) (s : Server) → Tells s (on_ws_closed id s)
unfolding on_ws_closed send_message send_message_at
Tells-on_ws_closed id s =
    Tells-two {e = publish_closed id} refl refl refl (omega arith) tt (record {
      sender = refl;
      size = sized (reserve_message s (close_ws (record { id = id }))) 18 refl;
      kind = refl;
      whole = tt;
    })

pub Tells-on_ws_error : (id : ℕ) (err : Text) (s : Server) → Tells s (on_ws_error id err s)
unfolding on_ws_error send_message send_message_at
Tells-on_ws_error id err s = Tells-one refl refl refl (omega arith) (record {
  sender = refl;
  size =
      sized
        (reserve_message s (
          ws_error
            (record { id = id; len = length err % 2 ^ 32; err = take (length err % 2 ^ 32) err })))
        (message_size + error_size + length err % 2 ^ 32) (omega (arith, taken err));
  kind = refl;
  whole = taken err;
})

pub Tells-on_ws_data :
    (id : ℕ) (bytes : Text) (remaining : ℕ) (s : Server) → Tells s (on_ws_data id bytes remaining s)
unfolding on_ws_data send_message send_message_at
Tells-on_ws_data id bytes remaining s = Tells-one refl refl refl (omega arith) (record {
  sender = refl;
  size =
      sized
        (reserve_message s (
          ws_data (record {
            id = id;
            len = length bytes % 2 ^ 32;
            remaining = remaining;
            bytes = take (length bytes % 2 ^ 32) bytes;
          })))
        (message_size + data_size + length bytes % 2 ^ 32) (omega (arith, taken bytes));
  kind = refl;
  whole = taken bytes;
})
