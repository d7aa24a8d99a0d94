-- ===== src/Owner.antt =====
-- Who serves: the processes that contend for the word `owner_pid_` in shared memory
-- (src/websocket_proxy.cpp, the constructor and the destructor of `WebsocketProxy` and the start of
-- `run`). A process is named by its id, which is not 0 and is not used again.
pub mod Exclusion
pub mod Fairness
pub mod Serving
pub mod Takeover
pub mod Counting
pub mod Deciding
use websocket_proxy.Base.{ℕ, ◌≡◌, ◌≢◌, Bool, true, false, Option, none, some, ◌==◌, if◌then◌else◌}

-- Where a process stands. `own` is `own_shm_`.
pub data Pc : Type 0 where
  absent : Pc  -- not started
  created : Pc  -- it made the mapping, and has not stored its id
  ready : (own : Bool) → Pc  -- constructed
  loaded : (owner : ℕ) → Pc  -- before the test that the owner runs
  trying : (expected : ℕ) → Pc  -- before the compare-exchange
  running : (own : Bool) → Pc  -- in the event loop
  stopping : (own : Bool) → Pc  -- in the destructor
  closing : Pc  -- before the handle is closed
  gone : Pc

abbrev pub is_alive : Pc → Bool
is_alive absent = false
is_alive gone = false
is_alive _ = true

-- The mapping's word, if there is a mapping; the system clears the word of a new one.
pub record System : Type 0 where
  pub word : Option ℕ
  pub pc : ℕ → Pc

abbrev pub after_load : ℕ → Pc
after_load w = if w == 0 then trying 0 else loaded w

abbrev pub after_failure : ℕ → Pc
after_failure w = if w == 0 then trying 0 else gone

-- What process `i` does next: the word that it leaves, and where it then stands.
pub data Move (s : System) (i : ℕ) : Option ℕ → Pc → Type 0 where
  creates : s.pc i ≡ absent → s.word ≡ none → Move s i (some 0) created
  opens : (w : ℕ) → s.pc i ≡ absent → s.word ≡ some w → Move s i s.word (ready false)
  stores : s.pc i ≡ created → Move s i (some i) (ready true)
  starts : s.pc i ≡ ready true → Move s i s.word (running true)
  loads : (w : ℕ) → s.pc i ≡ ready false → s.word ≡ some w → Move s i s.word (after_load w)
  sees_running : (o : ℕ) → s.pc i ≡ loaded o → is_alive (s.pc o) ≡ true → Move s i s.word gone
  sees_dead : (o : ℕ) → s.pc i ≡ loaded o → is_alive (s.pc o) ≡ false → Move s i s.word (trying o)
  wins : (e : ℕ) → s.pc i ≡ trying e → s.word ≡ some e → Move s i (some i) (running false)
  loses :
      (e w : ℕ) → s.pc i ≡ trying e → s.word ≡ some w → w ≢ e → Move s i s.word (after_failure w)
  ends : (own : Bool) → s.pc i ≡ running own → Move s i s.word (stopping own)
  clears : s.pc i ≡ stopping true → Move s i (some 0) closing
  keeps : s.pc i ≡ stopping false → Move s i s.word closing
  closes : s.pc i ≡ closing → Move s i s.word gone
  is_killed : is_alive (s.pc i) ≡ true → Move s i s.word gone

abbrev pub moved : System → ℕ → Option ℕ → Pc → System
moved s i w p = record { word = w; pc = λ j. if i == j then p else s.pc j }

pub data Turn (s : System) : System → Type 0 where
  moves : (i : ℕ) {w : Option ℕ} {p : Pc} → i ≢ 0 → Move s i w p → Turn s (moved s i w p)
  -- the mapping goes with the last process that has it
  unmaps : ((j : ℕ) → is_alive (s.pc j) ≡ false) → Turn s (record s { word = none })

abbrev pub before_all : System
before_all = record { word = none; pc = λ _. absent }

-- The systems that are reached through systems with the property `P`.
pub data Turns (P : System → Type 0) (s : System) : System → Type 0 where
  at_rest : Turns P s s
  and_turn : {t u : System} → Turns P s t → P t → Turn t u → Turns P s u
