-- ===== src/Arguments.antt =====
-- The command line of the server (src/main.cpp).
pub mod Parsing
pub mod Example
use websocket_proxy.Base.{
  ℕ, ◌-◌, ◌+◌, ◌%◌, ◌^◌, Bool, true, false, ◌&&◌, ◌||◌, Option, none, some, List, [], ◌∷◌, Text,
  if◌then◌else◌, ◌==◌, leb, text_beq,
}
use websocket_proxy.Url.{is_digit, is_space, digits_value}

-- The enumerators of the logger's levels that are used: L_OFF, L_FATAL, L_ERROR, L_WARN, L_INFO,
-- L_DEBUG and L_TRACE.
pub data Level : Type 0 where
  off : Level
  fatal : Level
  error : Level
  warn : Level
  info : Level
  debug : Level
  trace : Level

-- The variables that the arguments set.
pub record Config : Type 0 where
  pub min_level : Level
  pub log_level_set : Bool
  pub server_queue_size : ℕ

-- The values before the loop. The logger's level is the parameter.
abbrev pub default_config : Level → Config
default_config level = record {
  min_level = level;
  log_level_set = false;
  server_queue_size = 2 ^ 24;
}

abbrev pub to_lower : ℕ → ℕ
to_lower c = if leb b'A' c && leb c b'Z' then c + 32 else c

abbrev pub lower : Text → Text
lower [] = []
lower (c ∷ t) = to_lower c ∷ lower t

-- _stricmp(a, b) == 0
abbrev pub stricmp : Text → Text → Bool
stricmp a b = text_beq (lower a) (lower b)

abbrev pub level_name : Level → Text
level_name off = b'o' ∷ b'f' ∷ b'f' ∷ []
level_name fatal = b'c' ∷ b'r' ∷ b'i' ∷ b't' ∷ b'i' ∷ b'c' ∷ b'a' ∷ b'l' ∷ []
level_name error = b'e' ∷ b'r' ∷ b'r' ∷ b'o' ∷ b'r' ∷ []
level_name warn = b'w' ∷ b'a' ∷ b'r' ∷ b'n' ∷ b'i' ∷ b'n' ∷ b'g' ∷ []
level_name info = b'i' ∷ b'n' ∷ b'f' ∷ b'o' ∷ []
level_name debug = b'd' ∷ b'e' ∷ b'b' ∷ b'u' ∷ b'g' ∷ []
level_name trace = b't' ∷ b'r' ∷ b'a' ∷ b'c' ∷ b'e' ∷ []

-- The comparisons with the levels' names, in their order.
unfoldable pub level_of : Text → Option Level
level_of l =
    if text_beq l (level_name off)
    then some off
    else if text_beq l (level_name fatal)
    then some fatal
    else if text_beq l (level_name error)
    then some error
    else if text_beq l (level_name warn)
    then some warn
    else if text_beq l (level_name info)
    then some info
    else if text_beq l (level_name debug)
    then some debug
    else if text_beq l (level_name trace)
    then some trace
    else none

-- The branch of "-l".
unfoldable pub set_level : Text → Config → Config
unfolding level_of
set_level value c = elim (level_of (lower value)) [
  | none ↦ record c { log_level_set = false }
  | some level ↦ record c { min_level = level; log_level_set = true }
]

-- `atoi` behind the sign, converted to `uint32_t`. What is no `int` is undefined, and `none`.
unfoldable pub atoi_digits : Bool → Text → Option ℕ
atoi_digits negative t =
    let n = digits_value 0 t in
    if negative
    then (if leb n (2 ^ 31) then some ((2 ^ 32 - n) % 2 ^ 32) else none)
    else (if leb n (2 ^ 31 - 1) then some n else none)

unfoldable pub atoi_signed : Text → Option ℕ
unfolding atoi_digits
atoi_signed [] = some 0
atoi_signed (c ∷ t) =
    if c == b'-'
    then atoi_digits true t
    else if c == b'+'
    then atoi_digits false t
    else atoi_digits false (c ∷ t)

unfoldable pub atoi : Text → Option ℕ
unfolding atoi_signed
atoi [] = some 0
atoi (c ∷ t) = let rest = atoi t in if is_space c then rest else atoi_signed (c ∷ t)

pub data Word : Type 0 where
  level_word : Word
  size_word : Word
  other_word : Word

-- The tests for "-l" and "-s".
unfoldable pub word_of : Text → Word
word_of a =
    if stricmp a (b'-' ∷ b'l' ∷ [])
    then level_word
    else if stricmp a (b'-' ∷ b's' ∷ [])
    then size_word
    else other_word

-- The loop over the arguments behind the program's name. The last one is never taken for a word.
unfoldable pub parse_arguments : List Text → Config → Option Config
unfolding word_of set_level atoi
parse_arguments [] c = some c
parse_arguments (a ∷ []) c = some c
parse_arguments (a ∷ v ∷ rest) c = elim (word_of a) [
  | level_word ↦ parse_arguments rest (set_level v c)
  | size_word ↦ elim (atoi v) [
    | none ↦ none
    | some size ↦ parse_arguments rest (record c { server_queue_size = size })
  ]
  | other_word ↦ parse_arguments (v ∷ rest) c
]
