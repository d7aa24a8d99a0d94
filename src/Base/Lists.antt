-- ===== src/Base/Lists.antt =====
-- Lists measured by native numbers, under the library's names.
use Prim.Native.Nat.{ℕ, zero, suc, ◌+◌, ◌≤◌}
use Prim.Native.Nat.add
use mathlib.Core.Path.{◌≡◌, refl, sym, ◌∙◌}
use mathlib.Core.Logic.{◌⊎◌, inl, inr}
use mathlib.Core.List.{List, [], ◌∷◌, ◌++◌}
use native.Mathlib.Omega.{arith}

module _ {ℓ} {A : Type ℓ} where
  abbrev pub length : List A → ℕ
  length [] = 0
  length (x ∷ xs) = suc (length xs)

  abbrev pub take : ℕ → List A → List A
  take zero xs = []
  take (suc n) [] = []
  take (suc n) (x ∷ xs) = x ∷ take n xs

  abbrev pub drop : ℕ → List A → List A
  drop zero xs = xs
  drop (suc n) [] = []
  drop (suc n) (x ∷ xs) = drop n xs

  pub length-append : (xs ys : List A) → length (xs ++ ys) ≡ length xs + length ys
  length-append [] ys = omega arith
  length-append (x ∷ xs) ys = omega (arith, length-append xs ys)

  pub append_assoc : (xs ys zs : List A) → (xs ++ ys) ++ zs ≡ xs ++ (ys ++ zs)
  append_assoc [] ys zs = refl
  append_assoc (x ∷ xs) ys zs = λ i. x ∷ append_assoc xs ys zs i

  pub take-length-append : (xs ys : List A) → take (length xs) (xs ++ ys) ≡ xs
  take-length-append [] ys = refl
  take-length-append (x ∷ xs) ys = λ i. x ∷ take-length-append xs ys i

  pub take-length : (xs : List A) → take (length xs) xs ≡ xs
  take-length [] = refl
  take-length (x ∷ xs) = λ i. x ∷ take-length xs i

  pub drop-length-append : (xs ys : List A) → drop (length xs) (xs ++ ys) ≡ ys
  drop-length-append [] ys = refl
  drop-length-append (x ∷ xs) ys = drop-length-append xs ys

-- Every entry satisfies the predicate.
abbrev pub All {ℓ κ} : {A : Type ℓ} → (A → Type κ) → List A → Type κ
All P [] = Unit
All P (x ∷ xs) = P x × All P xs

module _ {ℓ} {A : Type ℓ} where
  drop-nil : (n : ℕ) → drop {A = A} n [] ≡ []
  drop-nil zero = refl
  drop-nil (suc n) = refl

  pub drop-add : (n m : ℕ) (xs : List A) → drop (n + m) xs ≡ drop m (drop n xs)
  drop-add zero m xs = rw (add.zero m)
  drop-add (suc n) m [] = drop-nil (suc n + m) ∙ sym (drop-nil m)
  drop-add (suc n) m (x ∷ xs) = rw (add.suc n m) (drop-add n m xs)

  pub take-add : (n m : ℕ) (xs : List A) → take n xs ++ take m (drop n xs) ≡ take (n + m) xs
  take-add zero m xs = rw (add.zero m)
  take-add (suc n) zero [] = rw (add.suc n 0)
  take-add (suc n) (suc m) [] = rw (add.suc n (suc m))
  take-add (suc n) m (x ∷ xs) = rw (add.suc n m) (λ i. x ∷ take-add n m xs i)

-- One entry of a list, and the others.
pub data Takes {ℓ} {A : Type ℓ} : A → List A → List A → Type ℓ where
  first : {a : A} {xs : List A} → Takes a (a ∷ xs) xs
  later : {a x : A} {xs ys : List A} → Takes a xs ys → Takes a (x ∷ xs) (x ∷ ys)

-- Taking an entry and then another is taking them in the other order.
pub Takes-swap {ℓ} :
    {A : Type ℓ} {a b : A} {xs ys zs : List A}
    → Takes a xs ys
    → Takes b ys zs
    → (ws : List A) × Takes b xs ws × Takes a ws zs
Takes-swap (first {a = x} {xs = ys}) (first {a = y} {xs = zs}) = (x ∷ zs, later first, first)
Takes-swap (first {a = x}) (later {x = y} {ys = zs} q) = (x ∷ y ∷ zs, later (later q), first)
Takes-swap (later {xs = xs} p) first = (xs, first, p)
Takes-swap (later {x = y} p) (later q) =
    let (ws, u, v) = Takes-swap p q in (y ∷ ws, later u, later v)

pub Takes-cons {ℓ} :
    {A : Type ℓ} {a x : A} {xs ys : List A}
    → Takes a (x ∷ xs) ys
    → ((a ≡ x) × (ys ≡ xs)) ⊎ ((zs : List A) × (ys ≡ x ∷ zs) × Takes a xs zs)
Takes-cons first = inl (refl, refl)
Takes-cons (later {ys = zs} p) = inr (zs, refl, p)

pub Takes-nil {ℓ} : {A : Type ℓ} {a : A} {ys : List A} → Takes a [] ys → ⊥
Takes-nil p = elim p [ ]

pub All-Takes {ℓ κ} :
    {A : Type ℓ} (P : A → Type κ) {a : A} {xs ys : List A}
    → Takes a xs ys
    → All P xs
    → P a × All P ys
All-Takes P first h = (h.0, h.1)
All-Takes P (later p) h = let (k, l) = All-Takes P p h.1 in (k, (h.0, l))

pub All-append {ℓ κ} :
    {A : Type ℓ} (P : A → Type κ) (xs ys : List A) → All P xs → All P ys → All P (xs ++ ys)
All-append P [] ys h k = k
All-append P (x ∷ xs) ys (h, l) k = (h, All-append P xs ys l k)

pub length-take {ℓ} : {A : Type ℓ} (n : ℕ) (xs : List A) → n ≤ length xs → length (take n xs) ≡ n
length-take zero xs h = refl
length-take (suc n) [] h = absurd (omega arith)
length-take (suc n) (x ∷ xs) h = omega (arith, length-take n xs (omega arith))

-- Some entry satisfies the predicate.
abbrev pub Exists {ℓ} : {A : Type ℓ} → (A → Type 0) → List A → Type 0
Exists P [] = ⊥
Exists P (x ∷ xs) = P x ⊎ Exists P xs

pub Exists-append {ℓ} :
    {A : Type ℓ} (P : A → Type 0) (xs ys : List A) → Exists P ys → Exists P (xs ++ ys)
Exists-append P [] ys h = h
Exists-append P (x ∷ xs) ys h = inr (Exists-append P xs ys h)

pub Exists-map {ℓ} :
    {A : Type ℓ} (P : A → Type 0) (Q : A → Type 0) (xs : List A)
    → ((x : A) → P x → Q x)
    → Exists P xs
    → Exists Q xs
Exists-map P Q [] k h = absurd h
Exists-map P Q (x ∷ xs) k (inl h) = inl (k x h)
Exists-map P Q (x ∷ xs) k (inr h) = inr (Exists-map P Q xs k h)

-- An entry that satisfies one predicate, where all satisfy another one.
pub Exists-All {ℓ} :
    {A : Type ℓ} (P : A → Type 0) (Q : A → Type 0) (xs : List A)
    → All Q xs
    → Exists P xs
    → (x : A) × (P x × Q x)
Exists-All P Q [] _ h = absurd h
Exists-All P Q (x ∷ xs) (q, qs) (inl h) = (x, (h, q))
Exists-All P Q (x ∷ xs) (q, qs) (inr h) = Exists-All P Q xs qs h
