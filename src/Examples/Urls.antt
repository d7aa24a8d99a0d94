-- ===== src/Examples/Urls.antt =====
-- URLs (src/websocket.h).
use Prim.Native.Char.{code}
use Prim.Native.String.{String}
use websocket_proxy.Base.{◌≡◌, refl, some, [], ◌∷◌, Text, arith}
use websocket_proxy.Url.{
  parse_url, split_url, split_port, default_port, index_of, index_from, stoi_u16, digits_value,
}
use websocket_proxy.Url.Parse.{parse_url-port}

-- The bytes of an ASCII text.
abbrev pub codes : String → Text
codes String.[] = []
codes (String.◌∷◌ c s) = code c ∷ codes s

parse_stream :
    parse_url (codes "wss://stream.data.alpaca.markets/v2/iex")
    ≡ some
        (record { host = codes "stream.data.alpaca.markets"; path = codes "/v2/iex"; port = 443 })
unfolding parse_url split_url split_port default_port index_of index_from stoi_u16 digits_value
parse_stream = refl

parse_bare :
    parse_url (codes "localhost:8080")
    ≡ some (record { host = codes "localhost"; path = codes "/"; port = 8080 })
unfolding parse_url split_url split_port default_port index_of index_from stoi_u16 digits_value
parse_bare = refl

parse_url-port_example :
    parse_url (codes "ws://localhost:81/a")
    ≡ some (record { host = codes "localhost"; path = codes "/a"; port = 81 })
unfolding digits_value
parse_url-port_example =
    parse_url-port (codes "ws") (codes "localhost") (codes "a") b'8' (codes "1") (ground arith)
      (ground arith) (ground arith) (ground arith) refl (omega arith) (omega arith) (omega arith)
