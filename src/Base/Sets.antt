-- ===== src/Base/Sets.antt =====
-- `std::unordered_set` as a list without repetitions.
use mathlib.Core.Path.{◌≡◌, refl}
use mathlib.Core.Logic.{inl, inr}
use mathlib.Core.Bool.{Bool, true, false}
use mathlib.Core.List.{List, [], ◌∷◌}
use native.Mathlib.Omega.{arith}
use websocket_proxy.Base.Tests.{Eq, if◌then◌else◌, Bool-cases}

abbrev pub is_empty {ℓ} : {A : Type ℓ} → List A → Bool
is_empty [] = true
is_empty (x ∷ xs) = false

module _ {ℓ} {A : Type ℓ} ⦃e : Eq A⦄ where
  unfoldable pub has : A → List A → Bool
  has a [] = false
  has a (x ∷ xs) = if e.beq x a then true else has a xs

  -- s.emplace(a)
  unfoldable pub insert : A → List A → List A
  insert a [] = a ∷ []
  insert a (x ∷ xs) = if e.beq x a then x ∷ xs else x ∷ insert a xs

  -- s.erase(a)
  unfoldable pub remove : A → List A → List A
  remove a [] = []
  remove a (x ∷ xs) = let rest = remove a xs in if e.beq x a then rest else x ∷ rest

  pub has-insert :
      (a b : A) (xs : List A) → has b (insert a xs) ≡ (if e.beq a b then true else has b xs)
  unfolding has insert
  has-insert a b [] = ground arith
  has-insert a b (x ∷ xs) =
      ground (arith, has-insert a b xs, e.beq_iff x a, e.beq_iff x b, e.beq_iff a b)

  pub has-remove :
      (a b : A) (xs : List A) → has b (remove a xs) ≡ (if e.beq a b then false else has b xs)
  unfolding has remove
  has-remove a b [] = ground arith
  has-remove a b (x ∷ xs) =
      ground (arith, has-remove a b xs, e.beq_iff x a, e.beq_iff x b, e.beq_iff a b)

  pub insert-nonempty : (a : A) (xs : List A) → is_empty (insert a xs) ≡ false
  unfolding insert
  insert-nonempty a [] = ground arith
  insert-nonempty a (x ∷ xs) = ground arith

  -- No entry stands twice.
  abbrev pub NoRepeats : List A → Type 0
  NoRepeats [] = Unit
  NoRepeats (x ∷ xs) = (has x xs ≡ false) × NoRepeats xs

  pub insert-NoRepeats : (a : A) (xs : List A) → NoRepeats xs → NoRepeats (insert a xs)
  unfolding has insert
  insert-NoRepeats a [] h = (refl, tt)
  insert-NoRepeats a (x ∷ xs) (h, k) = elim (Bool-cases (e.beq x a)) [
    | inl same ↦ rw same (h, k)
    | inr other ↦
        rw other
          (ground (arith, has-insert a x xs, e.beq_iff a x, e.beq_iff x a), insert-NoRepeats a xs k)
  ]

  pub remove-absent : (a : A) (xs : List A) → has a xs ≡ false → remove a xs ≡ xs
  unfolding has remove
  remove-absent a [] h = refl
  remove-absent a (x ∷ xs) h = ground (arith, remove-absent a xs)

  pub remove-NoRepeats : (a : A) (xs : List A) → NoRepeats xs → NoRepeats (remove a xs)
  unfolding remove
  remove-NoRepeats a [] h = tt
  remove-NoRepeats a (x ∷ xs) (h, k) = elim (Bool-cases (e.beq x a)) [
    | inl same ↦ rw same (remove-NoRepeats a xs k)
    | inr other ↦ rw other (ground (arith, has-remove a x xs), remove-NoRepeats a xs k)
  ]
