-- ===== src/Owner/Counting.antt =====
-- The moves that a process has left (src/websocket_proxy.cpp, the start of `run`).
use websocket_proxy.Base.{
  ℕ, suc, ◌+◌, ◌≤◌, ◌<◌, ◌≡◌, ◌≢◌, inl, inr, refl, sym, subst, Bool, true, false, Option, ◌==◌,
  if◌then◌else◌, if-case, Bool-cases, arith,
}
use websocket_proxy.Owner.{
  Pc, absent, created, ready, loaded, trying, running, stopping, closing, gone, is_alive, System,
  Move, creates, opens, stores, starts, loads, sees_running, sees_dead, wins, loses, ends, clears,
  keeps, closes, is_killed, after_load, after_failure, moves, unmaps, Turns, at_rest, and_turn,
}
use websocket_proxy.Owner.Takeover.{Anyhow}

-- The process serves or has served, or has given up.
abbrev pub is_decided : Pc → Bool
is_decided (running _) = true
is_decided (stopping _) = true
is_decided closing = true
is_decided gone = true
is_decided absent = false
is_decided created = false
is_decided (ready _) = false
is_decided (loaded _) = false
is_decided (trying _) = false

-- How many moves a process has left at most.
abbrev pub left : Pc → ℕ
left absent = 8
left (ready false) = 7
left (loaded _) = 6
left (trying e) = if e == 0 then 4 else 5
left created = 5
left (ready true) = 4
left (running _) = 3
left (stopping _) = 2
left closing = 1
left gone = 0

left-trying : (e : ℕ) → (4 ≤ left (trying e)) × (left (trying e) ≤ 5)
left-trying e =
    if-case (λ n. (4 ≤ n) × (n ≤ 5)) (e == 0) 4 5 (λ _. (omega arith, omega arith))
      (λ _. (omega arith, omega arith))

left-is_alive : (p : Pc) → is_alive p ≡ true → 0 < left p
left-is_alive absent a = omega arith
left-is_alive created a = omega arith
left-is_alive (ready true) a = omega arith
left-is_alive (ready false) a = omega arith
left-is_alive (loaded o) a = omega arith
left-is_alive (trying e) a = omega (arith, (left-trying e).0)
left-is_alive (running own) a = omega arith
left-is_alive (stopping own) a = omega arith
left-is_alive closing a = omega arith
left-is_alive gone a = cc

left-after_load : (w : ℕ) → left (after_load w) < 7
left-after_load w =
    if-case (λ p. left p < 7) (w == 0) (trying 0) (loaded w) (λ _. omega arith) (λ _. omega arith)

-- A failure that tries again was a try from another value than 0.
left-after_failure : (e w : ℕ) → w ≢ e → left (after_failure w) < left (trying e)
left-after_failure e w n = elim (Bool-cases (w == 0)) [
  | inl z ↦ elim (Bool-cases (e == 0)) [
    | inl z' ↦ absurd (n (ground arith))
    | inr nz ↦ rw (z, nz) (omega arith)
  ]
  | inr nz ↦ rw nz (omega (arith, (left-trying e).0))
]

left-Move : {s : System} {i : ℕ} {w : Option ℕ} {p : Pc} → Move s i w p → left p < left (s.pc i)
left-Move (creates a n) = rw a (omega arith)
left-Move (opens w a n) = rw a (omega arith)
left-Move (stores a) = rw a (omega arith)
left-Move (starts a) = rw a (omega arith)
left-Move (loads w a n) = rw a (left-after_load w)
left-Move (sees_running o a _) = rw a (omega arith)
left-Move (sees_dead o a _) = rw a (omega (arith, (left-trying o).1))
left-Move (wins e a n) = rw a (omega (arith, (left-trying e).0))
left-Move (loses e w a n d) = rw a (left-after_failure e w d)
left-Move (ends own a) = rw a (omega arith)
left-Move (clears a) = rw a (omega arith)
left-Move (keeps a) = rw a (omega arith)
left-Move (closes a) = rw a (omega arith)
left-Move {s} {i} (is_killed a) = left-is_alive (s.pc i) a

-- The moves of one process among the turns.
abbrev pub own_moves : {s t : System} → ℕ → Turns Anyhow s t → ℕ
own_moves i at_rest = 0
own_moves i (and_turn r _ (moves j _ _)) = let n = own_moves i r in if j == i then suc n else n
own_moves i (and_turn r _ (unmaps _)) = own_moves i r

-- One move more of one process.
one_more :
    (n k : ℕ) (p q : Pc) (b : Bool)
    → n + left q ≤ k
    → (b ≡ true → left p < left q)
    → (if b then suc n else n) + left (if b then p else q) ≤ k
one_more n k p q true h less = omega (arith, less refl)
one_more n k p q false h less = h

pub own_moves-left :
    {s t : System} (i : ℕ) (r : Turns Anyhow s t) → own_moves i r + left (t.pc i) ≤ left (s.pc i)
own_moves-left i at_rest = omega arith
own_moves-left {s} i (and_turn {t} r _ (moves j {w} {p} nz m)) =
    one_more (own_moves i r) (left (s.pc i)) p (t.pc i) (j == i) (own_moves-left i r)
      λ same. let q : j ≡ i = ground arith in subst (λ k. left p < left (t.pc k)) q (left-Move m)
own_moves-left i (and_turn r _ (unmaps _)) = own_moves-left i r

pub contrary : false ≢ true
contrary h = cc

pub left-undecided : (p : Pc) → is_decided p ≡ false → 4 ≤ left p
left-undecided absent d = omega arith
left-undecided created d = omega arith
left-undecided (ready true) d = omega arith
left-undecided (ready false) d = omega arith
left-undecided (loaded o) d = omega arith
left-undecided (trying e) d = (left-trying e).0
left-undecided (running own) d = absurd (contrary (sym d))
left-undecided (stopping own) d = absurd (contrary (sym d))
left-undecided closing d = absurd (contrary (sym d))
left-undecided gone d = absurd (contrary (sym d))
