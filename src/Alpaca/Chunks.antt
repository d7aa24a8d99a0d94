-- ===== src/Alpaca/Chunks.antt =====
-- Messages that come in pieces, and what `subscribe` answers (example/alpaca_websocket_client.h).
use websocket_proxy.Base.{
  append_assoc, ℕ, suc, ◌≡◌, refl, ap, ◌∙◌, false, List, [], ◌∷◌, ◌++◌, ◌==◌, Text, arith,
}
use websocket_proxy.Protocol.{Status}
use websocket_proxy.Client.Waiting.{Run, finished, ◌>>=◌}
use websocket_proxy.Client.Requests.{send_bytes}
use websocket_proxy.Alpaca.{
  Json, AlpacaClient, RequestStatus, waiting_for_result, on_websocket_data, handle_text,
  subscribe_alpaca, await,
}

-- Pieces, each with one less than the bytes that it says to remain, and a last one with none.
abbrev pub deliver :
    ℕ → Json → (ℕ → Status) → ℕ → List (Text × ℕ) → Text → AlpacaClient → Run AlpacaClient
deliver fuel json status id [] last a = on_websocket_data fuel json status id last 0 a
deliver fuel json status id ((bytes, more) ∷ pieces) last a =
    on_websocket_data fuel json status id bytes (suc more) a >>= λ b.
    deliver fuel json status id pieces last b

-- The bytes of the pieces.
abbrev pub joined : List (Text × ℕ) → Text → Text
joined [] last = last
joined ((bytes, more) ∷ pieces) last = bytes ++ joined pieces last

-- A message that comes in pieces does what it does in one piece.
pub deliver-joined :
    (fuel : ℕ) (json : Json) (status : ℕ → Status) (id : ℕ) (pieces : List (Text × ℕ)) (last : Text)
    (a : AlpacaClient)
    → deliver fuel json status id pieces last a
      ≡ on_websocket_data fuel json status id (joined pieces last) 0 a
unfolding on_websocket_data
deliver-joined fuel json status id [] last a = refl
deliver-joined fuel json status id ((bytes, more) ∷ pieces) last a =
    let not_last : (suc more == 0) ≡ false = ground arith in
    rw not_last
      (deliver-joined fuel json status id pieces last (record a { buffer = a.buffer ++ bytes }))
    ∙ ap (λ (t : Text). handle_text fuel json status id (record a { buffer = t }))
        (append_assoc a.buffer bytes (joined pieces last))

-- `subscribe` answers false when the result is not there at its first load.
pub subscribe_alpaca-refused :
    (fuel : ℕ) (json : Json) (loads : ℕ → RequestStatus) (symbol : Text) (a : AlpacaClient)
    → loads 0 ≡ waiting_for_result
    → (b : AlpacaClient) × (subscribe_alpaca (suc fuel) json loads symbol a ≡ finished (false, b))
unfolding subscribe_alpaca await
subscribe_alpaca-refused fuel json loads symbol a h = (
  record a {
    client = send_bytes a.ws_id (json.subscription symbol) a.client;
    request_status = waiting_for_result;
  },
  rw h refl,
)
