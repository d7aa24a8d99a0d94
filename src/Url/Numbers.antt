-- ===== src/Url/Numbers.antt =====
-- Numbers as text: `std::to_string` and the digits of `std::stoi` (src/websocket.h).
use websocket_proxy.Base.{
  append_assoc, ℕ, zero, suc, ◌+◌, ◌*◌, ◌-◌, ◌/◌, ◌%◌, ◌<◌, ◌≡◌, refl, ap, sym, ◌∙◌, true, [], ◌∷◌,
  ◌++◌, Text, ltb, Bool-cases, inl, inr, arith,
}
use websocket_proxy.Base.Decimal.{decimal, to_string}
use websocket_proxy.Url.{digits_value, is_digit}

append_nil : (xs : Text) → xs ++ [] ≡ xs
append_nil [] = refl
append_nil (x ∷ xs) = ap (λ (t : Text). x ∷ t) (append_nil xs)

digits_value-digit :
    (m d : ℕ) (t : Text) → d < 10 → digits_value m ((b'0' + d) ∷ t) ≡ digits_value (m * 10 + d) t
unfolding digits_value
digits_value-digit m d t h =
    let digit : is_digit (b'0' + d) ≡ true = ground arith in
    let value : m * 10 + (b'0' + d - b'0') ≡ m * 10 + d = omega arith in rw (digit, value) refl

digits_value-decimal :
    (fuel n : ℕ) (t : Text) → n < fuel → digits_value 0 (decimal fuel n ++ t) ≡ digits_value n t
unfolding decimal
digits_value-decimal zero n t h = absurd (omega arith)
digits_value-decimal (suc fuel) n t h = elim (Bool-cases (ltb n 10)) [
  | inl small ↦
      let value : 0 * 10 + n ≡ n = omega arith in
      rw small (digits_value-digit 0 n t (ground arith) ∙ ap (λ k. digits_value k t) value)
  | inr large ↦
      let value : n / 10 * 10 + n % 10 ≡ n = omega arith in
      let rest : n / 10 < fuel = ground arith in
      rw (large, append_assoc (decimal fuel (n / 10)) ((b'0' + n % 10) ∷ []) t)
        (digits_value-decimal fuel (n / 10) ((b'0' + n % 10) ∷ t) rest
          ∙ digits_value-digit (n / 10) (n % 10) t (omega arith)
          ∙ ap (λ k. digits_value k t) value)
]

-- The digits that `std::to_string` writes for a number have that number as their value.
pub digits_value-to_string : (n : ℕ) → digits_value 0 (to_string n) ≡ n
unfolding to_string digits_value
digits_value-to_string n =
    ap (digits_value 0) (sym (append_nil (decimal (suc n) n)))
    ∙ digits_value-decimal (suc n) n [] (omega arith)

-- A text that begins with a digit.
pub record Begins (t : Text) : Type 0 where
  pub digit : ℕ
  pub rest : Text
  pub whole : t ≡ digit ∷ rest
  pub decimal_digit : is_digit digit ≡ true

decimal-Begins : (fuel n : ℕ) → n < fuel → Begins (decimal fuel n)
unfolding decimal
decimal-Begins zero n h = absurd (omega arith)
decimal-Begins (suc fuel) n h = elim (Bool-cases (ltb n 10)) [
  | inl small ↦ record {
    digit = b'0' + n;
    rest = [];
    whole = rw small refl;
    decimal_digit = ground arith;
  }
  | inr large ↦
      let b = decimal-Begins fuel (n / 10) (ground arith) in
      record {
        digit = b.digit;
        rest = b.rest ++ (b'0' + n % 10) ∷ [];
        whole = rw (large, b.whole) refl;
        decimal_digit = b.decimal_digit;
      }
]

pub to_string-Begins : (n : ℕ) → Begins (to_string n)
unfolding to_string
to_string-Begins n = decimal-Begins (suc n) n (omega arith)
