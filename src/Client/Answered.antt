-- ===== src/Client/Answered.antt =====
-- How long a client waits for an answer (include/websocket_proxy/websocket_proxy_client.h,
-- `waitForResponse`).
use websocket_proxy.Base.{
  ℕ, zero, suc, ◌≤◌, ◌<◌, ◌≡◌, ◌⊎◌, refl, ap, sym, subst, ◌∙◌, Bool, true, false, if-case, ltb,
  ◌==◌, arith, Bool-cases, inl, inr,
}
use websocket_proxy.Protocol.{Status, sub64}
use websocket_proxy.Client.State.{Client, client_now, client_tick, is_pending}
use websocket_proxy.Client.Waiting.{
  Run, finished, aborted, unfinished, is_late, beat, wait_loop, wait_for_response,
}
use websocket_proxy.Client.Quiet.{Each, Each-map}
use websocket_proxy.Client.Halting.{is_over}
use websocket_proxy.Client.Halting.Loops.{IsRunning, Beats-beat, Halts-wait_for_response}

-- The loop that ended with load number `k` in `d`. An answer was found, or the last reading of the clock
-- lay more than `timeout` behind `start`. Each load before found none, and after it some reading of the
-- clock lay `timeout` behind `start` at most.
pub record IsAnswer (first start timeout from : ℕ) (clock : ℕ → ℕ) (status : ℕ → Status)
    (answered : Bool) (k : ℕ) (d : Client) : Type 0 where
  pub reached : first ≤ k
  pub last :
      ((answered ≡ true) × (is_pending (status k) ≡ false))
      ⊎ ((answered ≡ false)
          × (is_pending (status k) ≡ true)
          × ((r : ℕ) × (d.reads ≡ suc r) × (from ≤ r) × (timeout < sub64 (clock r) start)))
  pub earlier : (j : ℕ) → first ≤ j → j < k → is_pending (status j) ≡ true
  pub in_time :
      (j : ℕ)
      → first ≤ j
      → j < k
      → (r : ℕ) × (from ≤ r) × (r < d.reads) × (sub64 (clock r) start ≤ timeout)

abbrev Answers : ℕ → ℕ → ℕ → ℕ → (ℕ → ℕ) → (ℕ → Status) → Bool × ℕ × Client → Type 0
Answers first start timeout from clock status r =
    (from ≤ r.2.reads) × IsAnswer first start timeout from clock status r.0 r.1 r.2

-- A round that goes on, before the rest.
IsAnswer-later :
    (first start timeout from : ℕ) (clock : ℕ → ℕ) (status : ℕ → Status) (next : ℕ)
    (r : Bool × ℕ × Client)
    → is_pending (status first) ≡ true
    → suc from ≤ next
    → ltb timeout (sub64 (clock from) start) ≡ false
    → Answers (suc first) start timeout next clock status r
    → Answers first start timeout from clock status r
IsAnswer-later first start timeout from clock status next (b, k, d) p up early (more, h) = (
  omega (arith, up, more),
  record {
    reached = omega (arith, h.reached);
    last = elim h.last [
      | inl answer ↦ inl answer
      | inr (none_yet, pending, (r, e, after, late)) ↦
          inr (none_yet, pending, (r, e, omega (arith, up, after), late))
    ];
    earlier = λ j le lt. elim (Bool-cases (j == first)) [
      | inl same ↦ let q : j ≡ first = ground arith in rw q p
      | inr other ↦ h.earlier j (ground arith) lt
    ];
    in_time = λ j le lt. elim (Bool-cases (j == first)) [
      | inl same ↦ (from, omega arith, omega (arith, up, more), ground arith)
      | inr other ↦
          let (r, after, before, soon) = h.in_time j (ground arith) lt in
          (r, omega (arith, up, after), before, soon)
    ];
  },
)

wait_loop-IsAnswer :
    (fuel start timeout : ℕ) (clock : ℕ → ℕ) (status : ℕ → Status) (k : ℕ) (c : Client)
    → c.clock ≡ clock
    → Each (Answers k start timeout c.reads clock status) (wait_loop fuel start timeout status k c)
unfolding wait_loop
wait_loop-IsAnswer zero start timeout clock status k c e = tt
wait_loop-IsAnswer (suc fuel) start timeout clock status k c e =
    if-case (Each (Answers k start timeout c.reads clock status)) (is_pending (status k)) _ _
      (λ p.
        if-case (Each (Answers k start timeout c.reads clock status)) (is_late start timeout c) _ _
          (λ late. (
            omega arith,
            record {
              reached = omega arith;
              last =
                  inr
                    (refl, p, (c.reads, refl, omega arith, lateness timeout start clock c e late));
              earlier = λ j le lt. absurd (omega arith);
              in_time = λ j le lt. absurd (omega arith);
            },
          ))
          (λ early.
            let b = Beats-beat c in
            Each-map (Answers (suc k) start timeout (beat c).reads clock status)
              (Answers k start timeout c.reads clock status) _
              (λ r h.
                IsAnswer-later k start timeout c.reads clock status (beat c).reads r p
                  (omega (arith, b.once))
                  (ap (λ (f : ℕ → ℕ). ltb timeout (sub64 (f c.reads) start)) (sym e) ∙ early) h)
              (wait_loop-IsAnswer fuel start timeout clock status (suc k) (beat c) (b.clock ∙ e))))
      (λ p. (
        omega arith,
        record {
          reached = omega arith;
          last = inl (refl, p);
          earlier = λ j le lt. absurd (omega arith);
          in_time = λ j le lt. absurd (omega arith);
        },
      ))
  where
    lateness :
        (timeout start : ℕ) (clock : ℕ → ℕ) (c : Client)
        → c.clock ≡ clock
        → is_late start timeout c ≡ true
        → timeout < sub64 (clock c.reads) start
    lateness timeout start clock c e late = rw (← e) (ground arith)

-- The loop does not end the process.
abbrev is_aborted {ℓ} : {A : Type ℓ} → Run A → Bool
is_aborted (finished a) = false
is_aborted aborted = true
is_aborted unfinished = false

goes_on :
    (fuel start timeout : ℕ) (status : ℕ → Status) (k : ℕ) (c : Client)
    → is_aborted (wait_loop fuel start timeout status k c) ≡ false
unfolding wait_loop
goes_on zero start timeout status k c = refl
goes_on (suc fuel) start timeout status k c =
    if-case (λ (r : Run (Bool × ℕ × Client)). is_aborted r ≡ false) (is_pending (status k)) _ _
      (λ _.
        if-case (λ (r : Run (Bool × ℕ × Client)). is_aborted r ≡ false) (is_late start timeout c) _
          _ (λ _. refl) (λ _. goes_on fuel start timeout status (suc k) (beat c)))
      (λ _. refl)

ends_finished :
    {A : Type 0} (r : Run A) → is_over r ≡ true → is_aborted r ≡ false → (a : A) × (r ≡ finished a)
ends_finished (finished a) o n = (a, refl)
ends_finished aborted o n = cc
ends_finished unfinished o n = cc

-- What enough fuel makes of the wait: one result, the answer.
pub record Waited (timeout : ℕ) (status : ℕ → Status) (c : Client) : Type 0 where
  pub fuel : ℕ
  pub answered : Bool
  pub load : ℕ
  pub left : Client
  pub same :
      (f : ℕ) → fuel ≤ f → wait_for_response f timeout status c ≡ finished (answered, load, left)
  pub answer : IsAnswer 0 (c.clock c.reads) timeout (suc c.reads) c.clock status answered load left

-- If the clock passes every reading by more than the timeout, `waitForResponse` returns: either with an
-- answer, at the first load that finds one, or without one, when the last load found none and the last
-- reading of the clock lay more than the timeout, over uint64_t, behind the first one. It went on after
-- each load before only since some reading lay the timeout behind at most.
pub wait_for_response-IsAnswer :
    (timeout : ℕ) (status : ℕ → Status) (c : Client)
    → IsRunning timeout c.clock
    → Waited timeout status c
unfolding wait_for_response
wait_for_response-IsAnswer timeout status c running =
    let h = Halts-wait_for_response timeout status c running in
    let e = h.same h.fuel (omega arith) in
    let (a, f) =
      ends_finished h.result h.over
        (sym (ap is_aborted e) ∙ goes_on h.fuel (client_now c) timeout status 0 (client_tick c)) in
    let k : Each (Answers 0 (client_now c) timeout (suc c.reads) c.clock status) (finished a) =
      subst (Each (Answers 0 (client_now c) timeout (suc c.reads) c.clock status)) (e ∙ f)
        (wait_loop-IsAnswer h.fuel (client_now c) timeout c.clock status 0 (client_tick c) refl) in
    record {
      fuel = h.fuel;
      answered = a.0;
      load = a.1;
      left = a.2;
      same = λ n le. h.same n le ∙ f;
      answer = k.1;
    }
