-- ===== src/Url.antt =====
-- The URL handling of the constructor of `Websocket` (src/websocket.h). An exception of `std::stoi`
-- leaves the constructor, and is `none` here.
mod Find
mod Laws
pub mod Parse
pub mod Numbers
unfoldable pub use Find.{starts_with, index_of, index_from}
use websocket_proxy.Base.{
  ℕ, zero, suc, ◌+◌, ◌*◌, ◌-◌, ◌%◌, ◌^◌, ◌≡◌, refl, Bool, true, false, ◌&&◌, ◌||◌, Option, none,
  some, List, [], ◌∷◌, Text, if◌then◌else◌, ◌==◌, leb, take, drop, text_beq,
}

-- "wss", "ws", "://", "/" and ":"
abbrev pub wss : Text
wss = b'w' ∷ b's' ∷ b's' ∷ []

abbrev pub ws : Text
ws = b'w' ∷ b's' ∷ []

abbrev pub scheme_mark : Text
scheme_mark = b':' ∷ b'/' ∷ b'/' ∷ []

abbrev pub slash : Text
slash = b'/' ∷ []

abbrev pub colon : Text
colon = b':' ∷ []

pub record Parts : Type 0 where
  pub proto : Text
  pub host : Text
  pub path : Text

-- The tests for "://" and "/" that fill `protoco`, `host_` and `path_`.
unfoldable pub split_url : Text → Parts
split_url url = elim (index_of scheme_mark url) [
  | none ↦ elim (index_of slash url) [
    | none ↦ record { proto = wss; host = url; path = slash }
    | some pos ↦ record { proto = wss; host = take pos url; path = drop pos url }
  ]
  | some pos ↦ elim (index_from slash (pos + 3) url) [
    | none ↦ record { proto = take pos url; host = drop (pos + 3) url; path = slash }
    | some pos1 ↦ record {
      proto = take pos url;
      host = take (pos1 - (pos + 3)) (drop (pos + 3) url);
      path = drop pos1 url;
    }
  ]
]

abbrev pub is_digit : ℕ → Bool
is_digit c = leb b'0' c && leb c b'9'

abbrev pub is_space : ℕ → Bool
is_space c = c == b' ' || (leb 9 c && leb c 13)

-- The value of the digits that begin a text, as `strtol` reads on from the value `n`.
unfoldable pub digits_value : ℕ → Text → ℕ
digits_value n [] = n
digits_value n (c ∷ t) =
    let rest = digits_value (n * 10 + (c - b'0')) t in if is_digit c then rest else n

-- `std::stoi` on what follows the sign, converted to `uint16_t`: `none` where it throws
-- `invalid_argument` (no digit) or `out_of_range` (no `int`).
unfoldable pub stoi_unsigned : Bool → Text → Option ℕ
stoi_unsigned negative [] = none
stoi_unsigned negative (c ∷ t) =
    let n = digits_value 0 (c ∷ t) in
    if is_digit c
    then (if negative
        then (if leb n (2 ^ 31) then some ((2 ^ 32 - n) % 2 ^ 16) else none)
        else (if leb n (2 ^ 31 - 1) then some (n % 2 ^ 16) else none))
    else none

unfoldable pub stoi_signed : Text → Option ℕ
unfolding stoi_unsigned
stoi_signed [] = none
stoi_signed (c ∷ t) =
    if c == b'-'
    then stoi_unsigned true t
    else if c == b'+'
    then stoi_unsigned false t
    else stoi_unsigned false (c ∷ t)

-- (uint16_t)std::stoi(text)
unfoldable pub stoi_u16 : Text → Option ℕ
unfolding stoi_signed
stoi_u16 [] = none
stoi_u16 (c ∷ t) = let rest = stoi_u16 t in if is_space c then rest else stoi_signed (c ∷ t)

-- The initial value of `port_`, (uint16_t)-1.
abbrev pub no_port : ℕ
no_port = 65535

pub record Address : Type 0 where
  pub host : Text
  pub path : Text
  pub port : ℕ

-- if (port_ == (uint16_t)-1) port_ = (protoco == "ws") ? 80 : 443;
unfoldable pub default_port : Text → ℕ → ℕ
default_port proto port = if port == no_port then (if text_beq proto ws then 80 else 443) else port

-- The test of the colon's place skips 3 and 4.
unfoldable pub split_port : Text → Option (Text × ℕ)
split_port host = elim (index_of colon host) [
  | none ↦ some (host, no_port)
  | some pos ↦
      if pos == 3 || pos == 4
      then some (host, no_port)
      else elim (stoi_u16 (drop (pos + 1) host)) [ none ↦ none | some p ↦ some (take pos host, p) ]
]

unfoldable pub parse_url : Text → Option Address
parse_url url =
    let parts = split_url url in
    elim (split_port parts.host) [
      | none ↦ none
      | some (host, port) ↦
          some (record { host = host; path = parts.path; port = default_port parts.proto port })
    ]
