-- ===== src/Examples/Arguments.antt =====
-- Command lines.
use websocket_proxy.Base.{◌++◌, ◌≡◌, refl, true, some, [], ◌∷◌, arith}
use websocket_proxy.Url.{digits_value}
use websocket_proxy.Arguments.{info, warn, default_config, parse_arguments}
use websocket_proxy.Arguments.Parsing.{level, size, render, parse_arguments-render}
use websocket_proxy.Arguments.Example.{Arguments}
use websocket_proxy.Examples.Urls.{codes}

-- A level that is written in capitals, a word that means nothing, and a size.
mixed_arguments :
    parse_arguments
      (codes "-L" ∷ codes "INFO" ∷ codes "-x" ∷ codes "-s" ∷ codes "1024" ∷ [])
      (default_config warn)
    ≡ some (record { min_level = info; log_level_set = true; server_queue_size = 1024 })
unfolding parse_arguments digits_value
mixed_arguments = refl

parse_arguments-render_example :
    parse_arguments
      (render (level warn ∷ size 4096 ∷ level info ∷ []) ++ codes "-l" ∷ [])
      (default_config warn)
    ≡ some (record { min_level = info; log_level_set = true; server_queue_size = 4096 })
parse_arguments-render_example =
    parse_arguments-render (level warn ∷ size 4096 ∷ level info ∷ []) (codes "-l" ∷ [])
      (default_config warn) (tt, (omega arith, (tt, tt))) (omega arith)

-- The key, the secret and a url: the url takes the place of the secret.
abbrev keyed : Arguments
keyed = record { url = codes "wss://a"; api_key = codes "key"; api_secret = codes "secret" }
