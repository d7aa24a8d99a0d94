-- ===== src/Base/Maps.antt =====
-- `std::unordered_map` as an association list, and `std::unordered_set` as a list without
-- repetitions. The program relies on no order of iteration.
use mathlib.Core.Logic.{◌≢◌}
use mathlib.Core.Path.{◌≡◌}
use mathlib.Core.Bool.{Bool, true, false}
use mathlib.Core.Option
use mathlib.Core.Option.{Option, none, some}
use mathlib.Core.List.{List, [], ◌∷◌}
use native.Mathlib.Omega.{arith}
use mathlib.Core.Logic.{inl, inr}
use websocket_proxy.Base.Tests.{Eq, if◌then◌else◌, Option-cases}

abbrev pub Map {ℓ κ} : Type ℓ → Type κ → Type (ℓ ⊔ κ)
Map K V = List (K × V)

module _ {ℓ κ} {K : Type ℓ} ⦃e : Eq K⦄ {V : Type κ} where
  -- m.find(k)
  unfoldable pub find : K → Map K V → Option V
  find k [] = none
  find k ((j, v) ∷ m) = if e.beq j k then some v else find k m

  -- m.erase(k)
  unfoldable pub erase : K → Map K V → Map K V
  erase k [] = []
  erase k ((j, v) ∷ m) = let rest = erase k m in if e.beq j k then rest else (j, v) ∷ rest

  -- m.emplace(k, v), which leaves an entry that is there
  unfoldable pub emplace : K → V → Map K V → Map K V
  emplace k v [] = (k, v) ∷ []
  emplace k v ((j, w) ∷ m) = if e.beq j k then (j, w) ∷ m else (j, w) ∷ emplace k v m

  -- a write through the iterator that `find` returned
  unfoldable pub modify : K → (V → V) → Map K V → Map K V
  modify k f [] = []
  modify k f ((j, w) ∷ m) = if e.beq j k then (j, f w) ∷ m else (j, w) ∷ modify k f m

  abbrev pub contains : K → Map K V → Bool
  contains k m = elim (find k m) [ none ↦ false | some _ ↦ true ]

  pub find-erase :
      (k j : K) (m : Map K V) → find j (erase k m) ≡ (if e.beq k j then none else find j m)
  unfolding find erase
  find-erase k j [] = ground arith
  find-erase k j ((i, v) ∷ m) =
      ground (arith, find-erase k j m, e.beq_iff i k, e.beq_iff i j, e.beq_iff k j)

  pub find-erase_self : (k : K) (m : Map K V) → find k (erase k m) ≡ none
  find-erase_self k m = ground (arith, find-erase k k m, e.beq_iff k k)

  pub find-erase_other : (k j : K) (m : Map K V) → j ≢ k → find j (erase k m) ≡ find j m
  find-erase_other k j m n = ground (arith, find-erase k j m, e.beq_iff k j, n)

  pub find-emplace :
      (k j : K) (v : V) (m : Map K V)
      → find j (emplace k v m)
        ≡ (if e.beq k j then some (elim (find k m) [ none ↦ v | some w ↦ w ]) else find j m)
  unfolding find emplace
  find-emplace k j v [] = ground arith
  find-emplace k j v ((i, w) ∷ m) =
      ground (arith, find-emplace k j v m, e.beq_iff i k, e.beq_iff i j, e.beq_iff k j)

  pub find-modify :
      (k j : K) (f : V → V) (m : Map K V)
      → find j (modify k f m) ≡ (if e.beq k j then Option.map f (find j m) else find j m)
  unfolding find modify
  find-modify k j f [] = ground arith
  find-modify k j f ((i, w) ∷ m) =
      ground (arith, find-modify k j f m, e.beq_iff i k, e.beq_iff i j, e.beq_iff k j)

  -- An entry that is there stays.
  pub find-emplace-some :
      (k j : K) (v w : V) (m : Map K V) → find j m ≡ some w → find j (emplace k v m) ≡ some w
  find-emplace-some k j v w m h = ground (arith, find-emplace k j v m, e.beq_iff k j)

  pub find-emplace_new :
      (k : K) (v : V) (m : Map K V) → find k m ≡ none → find k (emplace k v m) ≡ some v
  find-emplace_new k v m h = ground (arith, find-emplace k k v m, e.beq_iff k k)

  pub contains-modify :
      (k j : K) (f : V → V) (m : Map K V) → contains j (modify k f m) ≡ contains j m
  contains-modify k j f m =
      let h = find-modify k j f m in
      elim (Option-cases (find j m)) [ inl e ↦ ground (arith, h) | inr (v, e) ↦ ground (arith, h) ]
