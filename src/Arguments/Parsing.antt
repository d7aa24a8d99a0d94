-- ===== src/Arguments/Parsing.antt =====
-- Command lines that are written by the rules of the usage text.
use websocket_proxy.Base.{
  ℕ, ◌-◌, ◌^◌, ◌≤◌, ◌<◌, ◌≡◌, refl, ap, sym, ◌∙◌, true, false, some, List, [], ◌∷◌, ◌++◌, Text,
  ◌==◌, leb, length, All, arith,
}
use websocket_proxy.Base.Decimal.{to_string}
use websocket_proxy.Url.{is_digit, is_space, digits_value}
use websocket_proxy.Url.Numbers.{to_string-Begins, digits_value-to_string}
use websocket_proxy.Arguments.{
  Level, off, fatal, error, warn, info, debug, trace, Config, lower, level_name, level_of,
  set_level, atoi, atoi_signed, atoi_digits, word_of, parse_arguments,
}

pub data Setting : Type 0 where
  level : Level → Setting
  size : ℕ → Setting

-- How a setting is written.
abbrev pub render : List Setting → List Text
render [] = []
render (level l ∷ ss) = (b'-' ∷ b'l' ∷ []) ∷ level_name l ∷ render ss
render (size n ∷ ss) = (b'-' ∷ b's' ∷ []) ∷ to_string n ∷ render ss

-- What the settings make of the variables: the last one of each kind counts.
abbrev pub apply : List Setting → Config → Config
apply [] c = c
apply (level l ∷ ss) c = apply ss (record c { min_level = l; log_level_set = true })
apply (size n ∷ ss) c = apply ss (record c { server_queue_size = n })

abbrev pub IsInt : Setting → Type 0
IsInt (level _) = Unit
IsInt (size n) = n < 2 ^ 31

level_of-level_name : (l : Level) → level_of (lower (level_name l)) ≡ some l
unfolding level_of
level_of-level_name off = refl
level_of-level_name fatal = refl
level_of-level_name error = refl
level_of-level_name warn = refl
level_of-level_name info = refl
level_of-level_name debug = refl
level_of-level_name trace = refl

set_level-level_name :
    (l : Level) (c : Config)
    → set_level (level_name l) c ≡ record c { min_level = l; log_level_set = true }
unfolding set_level
set_level-level_name l c = rw (set_level, level_of-level_name l) refl

atoi-digit :
    (d : ℕ) (t : Text)
    → is_digit d ≡ true
    → digits_value 0 (d ∷ t) < 2 ^ 31
    → atoi (d ∷ t) ≡ some (digits_value 0 (d ∷ t))
unfolding atoi atoi_signed atoi_digits
atoi-digit d t h b =
    let no_space : is_space d ≡ false = ground arith in
    let no_minus : (d == b'-') ≡ false = ground arith in
    let no_plus : (d == b'+') ≡ false = ground arith in
    let fits : leb (digits_value 0 (d ∷ t)) (2 ^ 31 - 1) ≡ true = ground arith in
    rw (no_space, no_minus, no_plus, fits) refl

atoi-to_string : (n : ℕ) → n < 2 ^ 31 → atoi (to_string n) ≡ some n
atoi-to_string n h =
    let b = to_string-Begins n in
    let value : digits_value 0 (b.digit ∷ b.rest) ≡ n =
      ap (digits_value 0) (sym b.whole) ∙ digits_value-to_string n in
    ap atoi b.whole ∙ atoi-digit b.digit b.rest b.decimal_digit (rw value h) ∙ ap some value

-- At most one word is left: it is not looked at.
parse_last : (last : List Text) (c : Config) → length last ≤ 1 → parse_arguments last c ≡ some c
unfolding parse_arguments
parse_last [] c h = refl
parse_last (a ∷ []) c h = refl
parse_last (a ∷ b ∷ r) c h = absurd (omega arith)

-- Settings that are written one behind the other, with sizes below 2 ^ 31, are read as they were
-- meant, the later one over the earlier one; and one word behind them is ignored, whatever it is.
pub parse_arguments-render :
    (ss : List Setting) (last : List Text) (c : Config)
    → All IsInt ss
    → length last ≤ 1
    → parse_arguments (render ss ++ last) c ≡ some (apply ss c)
unfolding parse_arguments word_of
parse_arguments-render [] last c h b = parse_last last c b
parse_arguments-render (level l ∷ ss) last c (h, k) b =
    rw (set_level-level_name l c) (parse_arguments-render ss last _ k b)
parse_arguments-render (size n ∷ ss) last c (h, k) b =
    rw (parse_arguments, atoi-to_string n h) (parse_arguments-render ss last _ k b)
