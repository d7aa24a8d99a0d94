-- ===== src/Arguments/Example.antt =====
-- The command line of the example program (example/main.cpp).
use websocket_proxy.Base.{
  ◌≡◌, refl, true, false, Option, none, some, List, [], ◌∷◌, Text, if◌then◌else◌, text_beq,
}
use websocket_proxy.Base.Sets.{is_empty}

pub record Arguments : Type 0 where
  pub url : Text
  pub api_key : Text
  pub api_secret : Text

abbrev pub url_word : Text
url_word = b'-' ∷ b'u' ∷ []

-- The branches that take one argument as the key, if there is none yet, or as the secret.
abbrev pub take_word : Text → Arguments → Arguments
take_word w a = if is_empty a.api_key then record a { api_key = w } else record a { api_secret = w }

-- The loop over the arguments behind the program's name. "-u" takes the next one as the url, and the
-- loop goes on with that one. A "-u" at the end reads a null pointer as a string, which is undefined,
-- and `none`.
unfoldable pub example_arguments : List Text → Arguments → Option Arguments
example_arguments [] a = some a
example_arguments (w ∷ []) a = if text_beq w url_word then none else some (take_word w a)
example_arguments (w ∷ v ∷ rest) a = elim (text_beq w url_word) [
  | true ↦ example_arguments (v ∷ rest) (record a { url = v })
  | false ↦ example_arguments (v ∷ rest) (take_word w a)
]

-- The argument behind "-u" is taken as the url, and once more, unless it is "-u" itself, as the key
-- or, if there is a key, as the secret.
pub example_arguments-url :
    (url : Text) (rest : List Text) (a : Arguments)
    → text_beq url url_word ≡ false
    → example_arguments (url_word ∷ url ∷ rest) a
      ≡ example_arguments rest (take_word url (record a { url = url }))
unfolding example_arguments
example_arguments-url url [] a h = rw h refl
example_arguments-url url (v ∷ rest) a h = rw (example_arguments, h) refl
