-- ===== src/Owner/Takeover.antt =====
-- A word that no running process stands for is taken; and the window in which two processes serve.
use websocket_proxy.Base.{
  ℕ, ◌≡◌, ◌≢◌, refl, ap, ◌∙◌, ◌⊎◌, inl, inr, true, false, Option, some, ◌==◌, arith, Bool-cases,
}
use websocket_proxy.Owner.{
  Pc, created, ready, loaded, trying, running, is_alive, System, Move, after_load, creates, opens,
  stores, starts, loads, sees_dead, wins, moved, moves, before_all, Turns, at_rest, and_turn,
}

abbrev pub Anyhow : System → Type 0
Anyhow _ = Unit {0}

-- One move of `i`.
go :
    {s t : System} (i : ℕ) {w : Option ℕ} {p : Pc}
    → i ≢ 0
    → Turns Anyhow s t
    → Move t i w p
    → Turns Anyhow s (moved t i w p)
go i nz past m = and_turn past tt (moves i nz m)

moved-pc : (t : System) (i : ℕ) (w : Option ℕ) (p : Pc) → (moved t i w p).pc i ≡ p
moved-pc t i w p = let e : (i == i) ≡ true = ground arith in rw e refl

-- Moves of `i` alone.
pub data Alone (i : ℕ) (s : System) : System → Type 0 where
  not_yet : Alone i s s
  and_own :
      {t : System} {w : Option ℕ} {p : Pc} → Alone i s t → Move t i w p → Alone i s (moved t i w p)

-- From the compare-exchange, `i` wins.
take :
    {s t : System} (i e : ℕ)
    → Alone i s t
    → t.pc i ≡ trying e
    → t.word ≡ some e
    → (u : System) × Alone i s u × (u.pc i ≡ running false) × (u.word ≡ some i)
take {t = t} i e past q w = (
  moved t i (some i) (running false),
  and_own past (wins e q w),
  moved-pc t i (some i) (running false),
  refl,
)

-- A process that is named by the word, and does not run, is not the one that finds so.
still_dead :
    (s : System) (i o : ℕ)
    → s.word ≡ some o
    → (o ≡ 0) ⊎ (is_alive (s.pc o) ≡ false)
    → (o == 0) ≡ false
    → s.pc i ≡ ready false
    → is_alive ((moved s i s.word (after_load o)).pc o) ≡ false
still_dead s i o w (inl z) n a = absurd (ground (arith, z, n))
still_dead s i o w (inr d) n a = elim (Bool-cases (i == o)) [
  | inl same ↦ let q : i ≡ o = ground arith in cc (ap is_alive a, ap (λ k. is_alive (s.pc k)) q, d)
  | inr differs ↦ rw differs d
]

-- A process that found the mapping made can come to serve by moves of its own alone, when the word is 0
-- or names a process that does not run.
pub takes_over :
    (s : System) (i o : ℕ)
    → s.pc i ≡ ready false
    → s.word ≡ some o
    → (o ≡ 0) ⊎ (is_alive (s.pc o) ≡ false)
    → (u : System) × Alone i s u × (u.pc i ≡ running false) × (u.word ≡ some i)
takes_over s i o a w h = elim (Bool-cases (o == 0)) [
  | inl z ↦
      let first = and_own not_yet (loads o a w) in
      let here : (moved s i s.word (after_load o)).pc i ≡ trying 0 =
        moved-pc s i s.word (after_load o) ∙ rw z refl in
      take i 0 first here (w ∙ ap some (ground arith))
  | inr n ↦
      let t = moved s i s.word (after_load o) in
      let first = and_own not_yet (loads o a w) in
      let here : t.pc i ≡ loaded o = moved-pc s i s.word (after_load o) ∙ rw n refl in
      let second_dead : is_alive (t.pc o) ≡ false = still_dead s i o w h n a in
      let second = and_own first (sees_dead o here second_dead) in
      take i o second (moved-pc t i t.word (trying o)) w
]

-- Of two processes both come to serve, when the second opens the mapping and wins its 0 before the first, which made it, has stored its id.
pub two_servers :
    (i j : ℕ)
    → i ≢ 0
    → j ≢ 0
    → i ≢ j
    → (u : System) × Turns Anyhow before_all u × (u.pc i ≡ running true) × (u.pc j ≡ running false)
two_servers i j ni nj d =
    let same_i : (i == i) ≡ true = ground arith in
    let same_j : (j == j) ≡ true = ground arith in
    let ij : (i == j) ≡ false = ground arith in
    let ji : (j == i) ≡ false = ground arith in
    let s1 = moved before_all i (some 0) created in
    let s2 = moved s1 j (some 0) (ready false) in
    let s3 = moved s2 j (some 0) (trying 0) in
    let s4 = moved s3 j (some j) (running false) in
    let s5 = moved s4 i (some i) (ready true) in
    let s6 = moved s5 i (some i) (running true) in
    let r1 = go i ni at_rest (creates refl refl) in
    let r2 = go j nj r1 (opens 0 (rw ij refl) refl) in
    let r3 = go j nj r2 (loads 0 (rw same_j refl) refl) in
    let r4 = go j nj r3 (wins 0 (rw same_j refl) refl) in
    let r5 = go i ni r4 (stores (rw (ji, same_i) refl)) in
    let r6 = go i ni r5 (starts (rw same_i refl)) in (s6, r6, rw same_i refl, rw (ij, same_j) refl)
