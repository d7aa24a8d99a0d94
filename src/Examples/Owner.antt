-- ===== src/Examples/Owner.antt =====
-- Processes that contend for the word.
use websocket_proxy.Base.{◌≤◌, ◌⊎◌, ◌≡◌, refl, true, false, some, inl, inr, Bool-cases, arith, ◌==◌}
use websocket_proxy.Owner.{
  trying, loaded, loads, stores, is_killed, System, gone, ready, running, absent, created, moved,
  creates, opens, moves, before_all, Turns, at_rest, and_turn,
}
use websocket_proxy.Owner.Exclusion.{owns, IsSettled}
use websocket_proxy.Owner.Serving.{Turns-exclusive}
use websocket_proxy.Owner.Takeover.{Anyhow, Alone, takes_over, two_servers}
use websocket_proxy.Owner.Counting.{is_decided, own_moves}
use websocket_proxy.Owner.Deciding.{CanGo, decides}

-- Process 1 makes the mapping and stores its id, and process 2 opens the mapping.
abbrev s1 : System
s1 = moved before_all 1 (some 0) created

abbrev s2 : System
s2 = moved s1 1 (some 1) (ready true)

abbrev s3 : System
s3 = moved s2 2 (some 1) (ready false)

s1-IsSettled : IsSettled s1
s1-IsSettled i j q e = elim (Bool-cases (1 == j)) [
  | inl same ↦ let away : created ≡ trying 0 = rw same at e in cc
  | inr differs ↦ let away : absent ≡ trying 0 = rw differs at e in cc
]

s2-IsSettled : IsSettled s2
s2-IsSettled i j q e = elim (Bool-cases (1 == j)) [
  | inl same ↦ let away : ready true ≡ trying 0 = rw same at e in cc
  | inr differs ↦ let away : absent ≡ trying 0 = rw differs at e in cc
]

Turns-exclusive_example : owns (s3.pc 2) ≡ false
Turns-exclusive_example =
    Turns-exclusive {s = s3}
      (and_turn
        (and_turn (and_turn at_rest (λ i j q n. cc) (moves 1 (omega arith) (creates refl refl)))
          s1-IsSettled (moves 1 (omega arith) (stores refl)))
        s2-IsSettled (moves 2 (omega arith) (opens 1 refl refl)))
      1 2 (omega arith) refl

-- Process 1 is killed after it stored its id, and process 2 finds it so.
abbrev s4 : System
s4 = moved s3 1 (some 1) gone

takes_over_example : (u : System) × Alone 2 s4 u × (u.pc 2 ≡ running false) × (u.word ≡ some 2)
takes_over_example = takes_over s4 2 1 refl refl (inr refl)

two_servers_example :
    (u : System) × Turns Anyhow before_all u × (u.pc 1 ≡ running true) × (u.pc 2 ≡ running false)
two_servers_example = two_servers 1 2 (omega arith) (omega arith) (omega arith)

-- Process 1 stores its id, process 2 opens the mapping, reads the id of process 1, and finds it killed.
s2_reached : Turns Anyhow before_all s2
s2_reached =
    and_turn (and_turn at_rest tt (moves 1 (omega arith) (creates refl refl))) tt
      (moves 1 (omega arith) (stores refl))

s3_reached : Turns Anyhow before_all s3
s3_reached = and_turn s2_reached tt (moves 2 (omega arith) (opens 1 refl refl))

abbrev s5 : System
s5 = moved s3 2 (some 1) (loaded 1)

abbrev s6 : System
s6 = moved s5 1 (some 1) gone

s6_after : Turns Anyhow s3 s6
s6_after =
    and_turn (and_turn at_rest tt (moves 2 (omega arith) (loads 1 refl refl))) tt
      (moves 1 (omega arith) (is_killed refl))

decides_example : (is_decided (s6.pc 2) ≡ true) ⊎ ((own_moves 2 s6_after ≤ 3) × CanGo s6 2)
decides_example = decides {s = s3} {t = s6} 2 s3_reached s6_after refl
