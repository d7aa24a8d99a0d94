-- ===== src/Client/Halting.antt =====
-- What it is for a call on fuel to come to an end: enough fuel gives a result, and more the same.
pub mod Loops
pub mod Calls
use websocket_proxy.Base.{
  ℕ, zero, suc, ◌+◌, ◌≤◌, ◌<◌, ◌≡◌, ◌≢◌, refl, sym, subst, ◌∙◌, Bool, true, false, if◌then◌else◌,
  arith, if-case,
}
use websocket_proxy.Client.Quiet.{Each}
use websocket_proxy.Client.Waiting.{Run, finished, aborted, unfinished, ◌>>=◌}

abbrev pub is_over {ℓ} : {A : Type ℓ} → Run A → Bool
is_over (finished a) = true
is_over aborted = true
is_over unfinished = false

pub record Halts {ℓ} {A : Type ℓ} (run : ℕ → Run A) : Type ℓ where
  pub fuel : ℕ
  pub result : Run A
  pub over : is_over result ≡ true
  pub same : (f : ℕ) → fuel ≤ f → run f ≡ result

module _ {ℓ} {A : Type ℓ} where
  pub Halts-now : (r : Run A) → is_over r ≡ true → Halts (λ _. r)
  Halts-now r h = record { fuel = 0; result = r; over = h; same = λ f _. refl }

  pub Halts-if :
      (b : Bool) (m n : ℕ → Run A) → Halts m → Halts n → Halts (λ f. if b then m f else n f)
  Halts-if true m n h k = h
  Halts-if false m n h k = k

module _ {ℓ κ} {A : Type ℓ} {B : Type κ} where
  Halts-after :
      (P : A → Type 0) (m : ℕ → Run A) (k : A → ℕ → Run B) (fuel : ℕ) (r : Run A)
      → is_over r ≡ true
      → ((f : ℕ) → fuel ≤ f → m f ≡ r)
      → Each P r
      → ((a : A) → P a → Halts (k a))
      → Halts (λ f. m f >>= λ a. k a f)
  Halts-after P m k fuel (finished a) o h e n =
      let l = n a e in
      record {
        fuel = fuel + l.fuel;
        result = l.result;
        over = l.over;
        same = λ f le. rw (h f (omega arith)) (l.same f (omega arith));
      }
  Halts-after P m k fuel aborted o h e n = record {
    fuel = fuel;
    result = aborted;
    over = refl;
    same = λ f le. rw (h f le) refl;
  }
  Halts-after P m k fuel unfinished o h e n = cc

  -- One call after another.
  pub Halts-bind :
      (P : A → Type 0) (m : ℕ → Run A) (k : A → ℕ → Run B)
      → Halts m
      → ((f : ℕ) → Each P (m f))
      → ((a : A) → P a → Halts (k a))
      → Halts (λ f. m f >>= λ a. k a f)
  Halts-bind P m k h e n =
      Halts-after P m k h.fuel h.result h.over h.same
        (subst (Each P) (h.same h.fuel (omega arith)) (e h.fuel)) n
