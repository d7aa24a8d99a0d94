-- ===== src/Owner/Serving.antt =====
-- Reached systems, and the processes that own the word in them.
use websocket_proxy.Base.{ℕ, ◌≡◌, ◌≢◌, ap, refl, sym, inl, inr, Bool-cases, ◌∙◌, true, false}
use websocket_proxy.Owner.{
  is_alive, System, Turn, moves, unmaps, before_all, Turns, at_rest, and_turn,
}
use websocket_proxy.Owner.Exclusion.{owns, IsSettled, IsOrderly, IsOrderly-moved}
use websocket_proxy.Owner.Fairness.{owns-is_alive, Move-IsFair, some-injective}

IsOrderly-before_all : IsOrderly before_all
IsOrderly-before_all = record {
  owner = λ i q. cc;
  named = λ v q. cc;
  read = λ i o q. cc;
  dead = λ i e q. cc;
  zero = refl;
  fresh = λ i q. cc;
  maker = λ i j q. cc;
}

Turn-IsOrderly : {s t : System} → IsSettled s → IsOrderly s → Turn s t → IsOrderly t
Turn-IsOrderly {s = s} settled h (moves i {w} {p} nz m) =
    IsOrderly-moved s i w p nz h (Move-IsFair s i nz h settled m)
Turn-IsOrderly {s = s} settled h (unmaps none_alive) = record {
  owner = λ i q. cc (none_alive i, owns-is_alive (s.pc i) q);
  named = λ v q. cc;
  read = h.read;
  dead = h.dead;
  zero = h.zero;
  fresh = λ i q. cc (none_alive i, ap is_alive q);
  maker = h.maker;
}

Turns-IsOrderly : {s t : System} → IsOrderly s → Turns IsSettled s t → IsOrderly t
Turns-IsOrderly h at_rest = h
Turns-IsOrderly h (and_turn past settled turn) =
    Turn-IsOrderly settled (Turns-IsOrderly h past) turn

-- In a reached system in which one process owns the word, no other one owns it, when on the way no
-- process was at the compare-exchange from 0 while another one had made the mapping and not stored its
-- id.
pub Turns-exclusive :
    {s : System}
    → Turns IsSettled before_all s
    → (i j : ℕ) → i ≢ j
    → owns (s.pc i) ≡ true
    → owns (s.pc j) ≡ false
Turns-exclusive {s = s} past i j n a = elim (Bool-cases (owns (s.pc j))) [
  | inl b ↦
      let h = Turns-IsOrderly IsOrderly-before_all past in
      absurd (n (some-injective (sym (h.owner i a) ∙ h.owner j b)))
  | inr b ↦ b
]
