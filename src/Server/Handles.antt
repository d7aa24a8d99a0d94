-- ===== src/Server/Handles.antt =====
-- What every handler of a message or an event keeps (src/websocket_proxy.cpp): the posted functions,
-- the flag, and that a time of shutdown is set only while there are no clients.
pub mod Clients
pub mod Requests
use websocket_proxy.Base.{
  arith, ◌≤◌, ◌<◌, ◌⊎◌, inl, inr, suc, ℕ, ◌≡◌, ◌≢◌, refl, ◌∙◌, Bool, Option, none, some, List, [],
  if◌then◌else◌, Option-case, if-case, ap,
}
use websocket_proxy.Server.State.{Server, Task, Effect, Websocket, respond, emit, put_socket}
use websocket_proxy.Protocol.{Message}
use websocket_proxy.Server.Telling.{Tells, Tells-quiet, Tells-one, Tells-refl, Tells-trans, IsSound}
use websocket_proxy.Server.Core.{Core, SameCore}

-- A time of shutdown is set only while there are no clients.
abbrev pub IsIdle : Server → Type 0
IsIdle s = s.shutdown_time ≢ 0 → s.clients ≡ []

-- The time of shutdown is cleared, or stays, or is set to a reading of the clock that is made meanwhile.
abbrev pub Timing : Server → Server → Type 0
Timing s t =
    (t.shutdown_time ≡ 0)
    ⊎ ((t.shutdown_time ≡ s.shutdown_time)
        ⊎ ((m : ℕ) × (s.reads ≤ m) × (suc m ≤ t.reads) × (t.shutdown_time ≡ s.clock m)))

pub Timing-trans : {s t u : Server} → Tells s t → Tells t u → Timing s t → Timing t u → Timing s u
Timing-trans l k p (inl z) = inl z
Timing-trans l k (inl z) (inr (inl e)) = inl (e ∙ z)
Timing-trans l k (inr (inl d)) (inr (inl e)) = inr (inl (e ∙ d))
Timing-trans l k (inr (inr (m, a, b, d))) (inr (inl e)) =
    inr (inr (m, a, omega (arith, b, k.reads), e ∙ d))
Timing-trans l k p (inr (inr (m, a, b, e))) =
    inr (inr (m, omega (arith, l.reads, a), b, e ∙ ap (λ (f : ℕ → ℕ). f m) l.clock))

pub record Handles (s t : Server) : Type 0 where
  pub timed : Timing s t
  pub idle : IsIdle s → IsIdle t
  pub posted : t.posted ≡ s.posted
  pub run : t.run ≡ s.run
  pub tells : Tells s t

pub Handles-refl : (s : Server) → Handles s s
Handles-refl s = record {
  timed = inr (inl refl);
  idle = λ h. h;
  posted = refl;
  run = refl;
  tells = Tells-refl s;
}

pub Handles-trans : {s t u : Server} → Handles s t → Handles t u → Handles s u
Handles-trans p q = record {
  timed = Timing-trans p.tells q.tells p.timed q.timed;
  idle = λ h. q.idle (p.idle h);
  posted = q.posted ∙ p.posted;
  run = q.run ∙ p.run;
  tells = Tells-trans p.tells q.tells;
}

-- A handler that touches neither the clients nor the time, nor what is kept.
pub Handles-same :
    {s t : Server}
    → t.clients ≡ s.clients
    → t.shutdown_time ≡ s.shutdown_time
    → t.posted ≡ s.posted
    → t.run ≡ s.run
    → Tells s t
    → Handles s t
Handles-same c z p r l = record {
  timed = inr (inl z);
  idle = λ h set. c ∙ h (λ q. set (z ∙ q));
  posted = p;
  run = r;
  tells = l;
}

pub Handles-emit : (e : Effect) (s : Server) → IsSound s.pid e → Handles s (emit e s)
Handles-emit e s k =
    Handles-same refl refl refl refl (Tells-one {e = e} refl refl refl (omega arith) k)

pub Handles-respond : (msg : Message) (s : Server) → Handles s (emit (respond msg) s)
Handles-respond msg s = Handles-emit (respond msg) s tt

pub Handles-put_socket : (a : ℕ) (w : Websocket) (s : Server) → Handles s (put_socket a w s)
Handles-put_socket a w s =
    Handles-same refl refl refl refl (Tells-quiet refl refl refl (omega arith))

pub Handles-core : {s t : Server} → SameCore s t → Handles s t
Handles-core l =
    Handles-same (ap (λ (c : Core). c.clients) l.same) (ap (λ (c : Core). c.shutdown_time) l.same)
      (ap (λ (c : Core). c.posted) l.same) (ap (λ (c : Core). c.run) l.same) l.tells

pub Handles-at :
    {A : Type 0} {s t : Server} (o : Option A) (f : A → Server)
    → Handles s t
    → ((a : A) → Handles s (f a))
    → Handles s (elim o [ none ↦ t | some a ↦ f a ])
Handles-at {s} {t} o f h k = Option-case (Handles s) o t f (λ _. h) (λ a _. k a)

pub Handles-if :
    {s t u : Server} (b : Bool) → Handles s t → Handles s u → Handles s (if b then t else u)
Handles-if {s} b h k = if-case (Handles s) b _ _ (λ _. h) (λ _. k)
