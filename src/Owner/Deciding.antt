-- ===== src/Owner/Deciding.antt =====
-- How long a process contends (src/websocket_proxy.cpp, the start of `run`).
use websocket_proxy.Base.{
  ℕ, ◌≤◌, ◌≡◌, ◌⊎◌, inl, inr, refl, sym, ap, ◌∙◌, Bool, true, false, Option, some, ◌==◌, if-case,
  Bool-cases, Option-cases, arith,
}
use websocket_proxy.Owner.{
  Pc, absent, created, ready, loaded, trying, running, stopping, closing, gone, is_alive, System,
  Move, creates, opens, stores, starts, loads, sees_running, sees_dead, wins, loses, ends, clears,
  keeps, closes, is_killed, Turn, moves, unmaps, before_all, Turns, at_rest, and_turn,
}
use websocket_proxy.Owner.Takeover.{Anyhow}
use websocket_proxy.Owner.Counting.{
  is_decided, left, own_moves, own_moves-left, contrary, left-undecided,
}

-- While a process is there, the mapping is.
IsMapped : System → Type 0
IsMapped s = (j : ℕ) → is_alive (s.pc j) ≡ true → (w : ℕ) × (s.word ≡ some w)

Move-IsMapped :
    {s : System} {i : ℕ} {w : Option ℕ} {p : Pc}
    → IsMapped s
    → Move s i w p
    → is_alive p ≡ true
    → (v : ℕ) × (w ≡ some v)
unfolding IsMapped
Move-IsMapped h (creates a n) k = (0, refl)
Move-IsMapped h (opens w a n) k = (w, n)
Move-IsMapped {i = i} h (stores a) k = (i, refl)
Move-IsMapped {i = i} h (starts a) k = h i (ap is_alive a)
Move-IsMapped h (loads w a n) k = (w, n)
Move-IsMapped h (sees_running o a _) k = cc
Move-IsMapped {i = i} h (sees_dead o a _) k = h i (ap is_alive a)
Move-IsMapped {i = i} h (wins e a n) k = (i, refl)
Move-IsMapped h (loses e w a n d) k = (w, n)
Move-IsMapped {i = i} h (ends own a) k = h i (ap is_alive a)
Move-IsMapped h (clears a) k = (0, refl)
Move-IsMapped {i = i} h (keeps a) k = h i (ap is_alive a)
Move-IsMapped h (closes a) k = cc
Move-IsMapped h (is_killed a) k = cc

-- The word that another process leaves.
still_mapped :
    {s : System} {i : ℕ} {w : Option ℕ} {p : Pc}
    → IsMapped s
    → Move s i w p
    → (v : ℕ) × (s.word ≡ some v)
    → (v : ℕ) × (w ≡ some v)
still_mapped {i = i} h (creates a n) k = (0, refl)
still_mapped {i = i} h (stores a) k = (i, refl)
still_mapped {i = i} h (wins e a n) k = (i, refl)
still_mapped {i = i} h (clears a) k = (0, refl)
still_mapped h (opens w a n) k = k
still_mapped h (starts a) k = k
still_mapped h (loads w a n) k = k
still_mapped h (sees_running o a _) k = k
still_mapped h (sees_dead o a _) k = k
still_mapped h (loses e w a n d) k = k
still_mapped h (ends own a) k = k
still_mapped h (keeps a) k = k
still_mapped h (closes a) k = k
still_mapped h (is_killed a) k = k

both : {s t : System} → Turns Anyhow before_all s → Turns Anyhow s t → Turns Anyhow before_all t
both r at_rest = r
both r (and_turn q h x) = and_turn (both r q) h x

Turn-IsMapped : {s t : System} → IsMapped s → Turn s t → IsMapped t
unfolding IsMapped
Turn-IsMapped {s} h (moves i {w} {p} nz m) = λ j.
    if-case (λ q. is_alive q ≡ true → (v : ℕ) × (w ≡ some v)) (i == j) p (s.pc j)
      (λ _. Move-IsMapped h m) (λ _ k. still_mapped h m (h j k))
Turn-IsMapped h (unmaps dead) = λ j k. absurd (contrary (sym (dead j) ∙ k))

Turns-IsMapped : {t : System} → Turns Anyhow before_all t → IsMapped t
unfolding IsMapped
Turns-IsMapped at_rest = λ j k. cc
Turns-IsMapped (and_turn r _ x) = Turn-IsMapped (Turns-IsMapped r) x

-- A move of the code, which is not the end of the process from outside.
abbrev pub is_kill : {s : System} {i : ℕ} {w : Option ℕ} {p : Pc} → Move s i w p → Bool
is_kill (is_killed _) = true
is_kill (creates _ _) = false
is_kill (opens _ _ _) = false
is_kill (stores _) = false
is_kill (starts _) = false
is_kill (loads _ _ _) = false
is_kill (sees_running _ _ _) = false
is_kill (sees_dead _ _ _) = false
is_kill (wins _ _ _) = false
is_kill (loses _ _ _ _ _) = false
is_kill (ends _ _) = false
is_kill (clears _) = false
is_kill (keeps _) = false
is_kill (closes _) = false

abbrev pub CanGo : System → ℕ → Type 0
CanGo s i = (w : Option ℕ) × (p : Pc) × (m : Move s i w p) × (is_kill m ≡ false)

-- A process that has not decided can go on.
undecided-CanGo :
    (s : System) (i : ℕ) (p : Pc) → IsMapped s → s.pc i ≡ p → is_decided p ≡ false → CanGo s i
unfolding IsMapped
undecided-CanGo s i absent h a d = elim (Option-cases s.word) [
  | inl n ↦ (_, _, creates a n, refl)
  | inr (w, n) ↦ (_, _, opens w a n, refl)
]
undecided-CanGo s i created h a d = (_, _, stores a, refl)
undecided-CanGo s i (ready true) h a d = (_, _, starts a, refl)
undecided-CanGo s i (ready false) h a d =
    let (w, n) = h i (ap is_alive a) in (_, _, loads w a n, refl)
undecided-CanGo s i (loaded o) h a d = elim (Bool-cases (is_alive (s.pc o))) [
  | inl there ↦ (_, _, sees_running o a there, refl)
  | inr dead ↦ (_, _, sees_dead o a dead, refl)
]
undecided-CanGo s i (trying e) h a d =
    let (w, n) = h i (ap is_alive a) in
    elim (Bool-cases (w == e)) [
      | inl same ↦ (_, _, wins e a (n ∙ ap some (ground arith)), refl)
      | inr other ↦ (_, _, loses e w a n (ground arith), refl)
    ]
undecided-CanGo s i (running own) h a d = absurd (contrary (sym d))
undecided-CanGo s i (stopping own) h a d = absurd (contrary (sym d))
undecided-CanGo s i closing h a d = absurd (contrary (sym d))
undecided-CanGo s i gone h a d = absurd (contrary (sym d))

-- In a system that is reached from the start, a process that found the mapping made comes to serve or to
-- end by four moves of its own at most, whatever the other processes do in between: whenever it has not
-- decided yet, it has made three moves at most, and it can go on.
pub decides :
    {s t : System} (i : ℕ)
    → Turns Anyhow before_all s
    → (r : Turns Anyhow s t) → s.pc i ≡ ready false
    → (is_decided (t.pc i) ≡ true) ⊎ ((own_moves i r ≤ 3) × CanGo t i)
decides {s} {t} i before r a = elim (Bool-cases (is_decided (t.pc i))) [
  | inl d ↦ inl d
  | inr d ↦ inr (
    omega (arith, own_moves-left i r, left-undecided (t.pc i) d, ap left a),
    undecided-CanGo t i (t.pc i) (Turns-IsMapped (both before r)) refl d,
  )
]
