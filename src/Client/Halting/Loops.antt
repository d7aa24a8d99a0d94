-- ===== src/Client/Halting/Loops.antt =====
-- The loops that wait, over a clock that goes on.
use websocket_proxy.Base.{
  ℕ, zero, suc, ◌+◌, ◌≤◌, ◌<◌, ◌≡◌, refl, ap, sym, ◌∙◌, Bool, true, false, not, ◌&&◌, ltb, ◌==◌,
  arith, if-case, Bool-cases, inl, inr,
}
use websocket_proxy.Protocol.{Status, sub64, heartbeat_interval}
use websocket_proxy.Client.State.{
  Client, client_now, client_tick, client_heartbeat, send_request, is_pending,
}
use websocket_proxy.Client.Waiting.{
  Run, finished, is_late, is_early, beat, wait_loop, wait_for_response, spawn_loop, ready_loop,
  wait_for_server_ready, start_limit,
}
use websocket_proxy.Client.Halting.{Halts, Halts-now}

-- The clock passes `start` by more than `limit`, for two readings on end.
pub record Passes (clock : ℕ → ℕ) (limit start from : ℕ) : Type 0 where
  pub at : ℕ
  pub later : from ≤ at
  pub late : limit < sub64 (clock at) start
  pub still_late : limit < sub64 (clock (at + 1)) start

-- The clock passes every reading by more than `limit`.
abbrev pub IsRunning : ℕ → (ℕ → ℕ) → Type 0
IsRunning limit clock = (n : ℕ) → Passes clock limit (clock n) (n + 1)

-- One more round.
Halts-suc :
    {A : Type 0} (run : ℕ → Run A) (rest : ℕ → Run A)
    → ((f : ℕ) → run (suc f) ≡ rest f)
    → Halts rest
    → Halts run
Halts-suc run rest e h = record {
  fuel = suc h.fuel;
  result = h.result;
  over = h.over;
  same = λ f le. go f le;
}
  where
    go : (f : ℕ) → suc h.fuel ≤ f → run f ≡ h.result
    go zero le = absurd (omega arith)
    go (suc f) le = e f ∙ h.same f (omega arith)

-- A round of `waitForResponse` reads the clock once or twice.
pub record Beats (c d : Client) : Type 0 where
  pub clock : d.clock ≡ c.clock
  pub once : c.reads + 1 ≤ d.reads
  pub twice : d.reads ≤ c.reads + 2

pub Beats-beat : (c : Client) → Beats c (beat c)
unfolding client_heartbeat send_request
Beats-beat c =
    if-case (λ (r : Bool × Client). Beats c r.1)
      (not (c.server_pid == 0)
        && ltb heartbeat_interval (sub64 (client_now c) c.last_heartbeat_time))
      _ _ (λ _. record { clock = refl; once = omega arith; twice = omega arith })
      (λ _. record { clock = refl; once = omega arith; twice = omega arith })

module _ (clock : ℕ → ℕ) (limit start at : ℕ) (status : ℕ → Status)
    (late : limit < sub64 (clock at) start)
    (still_late : limit < sub64 (clock (at + 1)) start) where
  -- A reading that is not late lies before the two that are.
  pub before : (r : ℕ) → r ≤ at + 1 → ltb limit (sub64 (clock r) start) ≡ false → r + 2 ≤ at + 1
  before r h n = elim (Bool-cases (r == at)) [
    | inl e ↦
        let q : r ≡ at = ground arith in
        let l : limit < sub64 (clock r) start = rw q late in absurd (ground arith)
    | inr e ↦ elim (Bool-cases (r == at + 1)) [
      | inl e' ↦
          let q : r ≡ at + 1 = ground arith in
          let l : limit < sub64 (clock r) start = rw q still_late in absurd (ground arith)
      | inr e' ↦ ground arith
    ]
  ]

  round :
      (k : ℕ) (c : Client)
      → (is_late start limit c ≡ false
          → Halts (λ f. wait_loop f start limit status (suc k) (beat c)))
      → Halts (λ f. wait_loop f start limit status k c)
  unfolding wait_loop
  round k c go = elim (Bool-cases (is_pending (status k))) [
    | inl pending ↦ elim (Bool-cases (is_late start limit c)) [
      | inl over ↦
          Halts-suc _ (λ _. finished (false, k, client_tick c))
            (λ f. rw (wait_loop, pending, over) refl) (Halts-now _ refl)
      | inr early ↦
          Halts-suc _ (λ f. wait_loop f start limit status (suc k) (beat c))
            (λ f. rw (wait_loop, pending, early) refl) (go early)
    ]
    | inr answered ↦
        Halts-suc _ (λ _. finished (true, k, c)) (λ f. rw (wait_loop, answered) refl)
          (Halts-now _ refl)
  ]

  more :
      (c : Client)
      → c.clock ≡ clock
      → c.reads ≤ at + 1
      → is_late start limit c ≡ false
      → c.reads + 2 ≤ at + 1
  more c e h early =
      before c.reads h (ap (λ (g : ℕ → ℕ). ltb limit (sub64 (g c.reads) start)) (sym e) ∙ early)

  Halts-wait_loop :
      (bound k : ℕ) (c : Client)
      → c.clock ≡ clock
      → c.reads ≤ at + 1
      → at + 1 ≤ c.reads + bound
      → Halts (λ f. wait_loop f start limit status k c)
  Halts-wait_loop zero k c e h l = round k c λ early. absurd (omega (arith, more c e h early))
  Halts-wait_loop (suc bound) k c e h l = round k c λ early.
      let b = Beats-beat c in
      Halts-wait_loop bound (suc k) (beat c) (b.clock ∙ e)
        (omega (arith, more c e h early, b.twice)) (omega (arith, b.once))

pub Halts-wait_for_response :
    (limit : ℕ) (status : ℕ → Status) (c : Client)
    → IsRunning limit c.clock
    → Halts (λ f. wait_for_response f limit status c)
unfolding wait_for_response
Halts-wait_for_response limit status c r =
    let p = r c.reads in
    Halts-wait_loop c.clock limit (client_now c) p.at status p.late p.still_late (p.at + 1) 0
      (client_tick c) refl (omega (arith, p.later)) (omega arith)

-- The loops that read the clock once in each round.
module _ (clock : ℕ → ℕ) (start at : ℕ) (late : start_limit < sub64 (clock at) start) where
  once_more :
      (c : Client) → c.clock ≡ clock → c.reads ≤ at → is_early start c ≡ true → c.reads + 1 ≤ at
  once_more c e h early = elim (Bool-cases (c.reads == at)) [
    | inl same ↦
        let q : c.reads ≡ at = ground arith in
        let l : start_limit < sub64 (c.clock c.reads) start = rw (e, q) late in
        absurd (ground arith)
    | inr other ↦ ground arith
  ]

  spawn_round :
      (running : ℕ → Bool) (k : ℕ) (c : Client)
      → (is_early start c ≡ true → Halts (λ f. spawn_loop f start running (suc k) (client_tick c)))
      → Halts (λ f. spawn_loop f start running k c)
  unfolding spawn_loop
  spawn_round running k c go = elim (Bool-cases (running k)) [
    | inl there ↦
        Halts-suc _ (λ _. finished c) (λ f. rw (spawn_loop, there) refl) (Halts-now _ refl)
    | inr away ↦ elim (Bool-cases (is_early start c)) [
      | inl early ↦
          Halts-suc _ (λ f. spawn_loop f start running (suc k) (client_tick c))
            (λ f. rw (spawn_loop, away, early) refl) (go early)
      | inr over ↦
          Halts-suc _ (λ _. finished (client_tick c)) (λ f. rw (spawn_loop, away, over) refl)
            (Halts-now _ refl)
    ]
  ]

  Halts-spawn_loop :
      (running : ℕ → Bool) (bound k : ℕ) (c : Client)
      → c.clock ≡ clock
      → c.reads ≤ at
      → at ≤ c.reads + bound
      → Halts (λ f. spawn_loop f start running k c)
  Halts-spawn_loop running zero k c e h l =
      spawn_round running k c λ early. absurd (omega (arith, once_more c e h early))
  Halts-spawn_loop running (suc bound) k c e h l = spawn_round running k c λ early.
      Halts-spawn_loop running bound (suc k) (client_tick c) e
        (omega (arith, once_more c e h early)) (omega arith)

  ready_round :
      (ready : ℕ → Bool) (k : ℕ) (c : Client)
      → (is_early start c ≡ true → Halts (λ f. ready_loop f start ready (suc k) (client_tick c)))
      → Halts (λ f. ready_loop f start ready k c)
  unfolding ready_loop
  ready_round ready k c go = elim (Bool-cases (is_early start c)) [
    | inl early ↦ elim (Bool-cases (ready k)) [
      | inl there ↦
          Halts-suc _ (λ _. finished (true, client_tick c))
            (λ f. rw (ready_loop, early, there) refl) (Halts-now _ refl)
      | inr away ↦
          Halts-suc _ (λ f. ready_loop f start ready (suc k) (client_tick c))
            (λ f. rw (ready_loop, early, away) refl) (go early)
    ]
    | inr over ↦
        Halts-suc _ (λ _. finished (false, client_tick c)) (λ f. rw (ready_loop, over) refl)
          (Halts-now _ refl)
  ]

  Halts-ready_loop :
      (ready : ℕ → Bool) (bound k : ℕ) (c : Client)
      → c.clock ≡ clock
      → c.reads ≤ at
      → at ≤ c.reads + bound
      → Halts (λ f. ready_loop f start ready k c)
  Halts-ready_loop ready zero k c e h l =
      ready_round ready k c λ early. absurd (omega (arith, once_more c e h early))
  Halts-ready_loop ready (suc bound) k c e h l = ready_round ready k c λ early.
      Halts-ready_loop ready bound (suc k) (client_tick c) e (omega (arith, once_more c e h early))
        (omega arith)

pub Halts-spawn :
    (running : ℕ → Bool) (c : Client)
    → IsRunning start_limit c.clock
    → Halts (λ f. spawn_loop f (client_now c) running 0 (client_tick c))
Halts-spawn running c r =
    let p = r c.reads in
    Halts-spawn_loop c.clock (client_now c) p.at p.late running p.at 0 (client_tick c) refl
      (omega (arith, p.later)) (omega arith)

pub Halts-ready :
    (ready : ℕ → Bool) (c : Client)
    → IsRunning start_limit c.clock
    → Halts (λ f. wait_for_server_ready f ready c)
unfolding wait_for_server_ready
Halts-ready ready c r =
    let p = r c.reads in
    Halts-ready_loop c.clock (client_now c) p.at p.late ready p.at 0 (client_tick c) refl
      (omega (arith, p.later)) (omega arith)
