-- ===== src/Examples/Alpaca.antt =====
-- The example's client.
use websocket_proxy.Base.{◌≡◌, refl, none, some, [], ◌∷◌, text_beq, if◌then◌else◌}
use websocket_proxy.Protocol.{success}
use websocket_proxy.Client.Waiting.{finished}
use websocket_proxy.Alpaca.{
  Json, AlpacaClient, waiting_for_result, completed, success_item, authenticated_text,
  on_websocket_data, handle_text, handle_items, on_success,
}
use websocket_proxy.Alpaca.Chunks.{deliver, deliver-joined}
use websocket_proxy.Examples.Urls.{codes}
use websocket_proxy.Examples.Client.{listening}

-- A library that knows one text.
abbrev json : Json
json = record {
  parse = λ t.
      if text_beq t (codes "[{}]")
      then some (success_item (some authenticated_text) ∷ [])
      else none;
  auth = λ key secret. key;
  subscription = λ symbol. symbol;
}

abbrev opening_client : AlpacaClient
opening_client = record {
  client = listening;
  ws_id = 50001;
  url = codes "ws://localhost/a";
  api_key = codes "key";
  api_secret = codes "secret";
  buffer = [];
  request_status = waiting_for_result;
}

authenticated_at_once :
    on_websocket_data 1 json (λ _. success) 50001 (codes "[{}]") 0 opening_client
    ≡ finished (record opening_client { request_status = completed })
unfolding on_websocket_data handle_text handle_items on_success
authenticated_at_once = refl

-- In two pieces.
deliver-joined_example :
    deliver 1 json (λ _. success) 50001 ((codes "[{", 1) ∷ []) (codes "}]") opening_client
    ≡ on_websocket_data 1 json (λ _. success) 50001 (codes "[{}]") 0 opening_client
deliver-joined_example =
    deliver-joined 1 json (λ _. success) 50001 ((codes "[{", 1) ∷ []) (codes "}]") opening_client
