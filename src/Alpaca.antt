-- ===== src/Alpaca.antt =====
-- The client of the example program (example/alpaca_websocket_client.h). What it prints is left out.
-- The JSON library is a parameter.
pub mod Chunks
use websocket_proxy.Base.{
  ℕ, zero, suc, Bool, true, false, Option, none, some, List, [], ◌∷◌, ◌++◌, Text, if◌then◌else◌,
  ◌==◌, text_beq,
}
use websocket_proxy.Protocol.{Status, WsOpen}
use websocket_proxy.Client.State.{Client}
use websocket_proxy.Client.Waiting.{Run, finished, unfinished, ◌>>=◌}
use websocket_proxy.Client.Connecting.{Reply, Setup}
use websocket_proxy.Client.Requests.{open_web_socket, close_web_socket, send_bytes}

pub data RequestStatus : Type 0 where
  no_request : RequestStatus
  waiting_for_result : RequestStatus
  completed : RequestStatus
  failed_request : RequestStatus

-- What the handler asks of an element of the array: whether it is an object, whether it has a "T", and
-- which. The "msg" of a success is absent where it is no string, which throws.
pub data Item : Type 0 where
  no_object : Item
  no_type : Item
  error_item : Item
  success_item : (msg : Option Text) → Item
  subscription_item : Item
  other_item : Item

-- `parse` has no result where the library throws and for a text that is no array.
pub record Json : Type 0 where
  pub parse : Text → Option (List Item)
  pub auth : (key secret : Text) → Text
  pub subscription : (symbol : Text) → Text

pub record AlpacaClient : Type 0 where
  pub client : Client
  pub ws_id : ℕ
  pub url : Text
  pub api_key : Text
  pub api_secret : Text
  pub buffer : Text  -- `ss_`
  pub request_status : RequestStatus

abbrev pub is_waiting : RequestStatus → Bool
is_waiting waiting_for_result = true
is_waiting no_request = false
is_waiting completed = false
is_waiting failed_request = false

abbrev pub is_completed : RequestStatus → Bool
is_completed completed = true
is_completed no_request = false
is_completed waiting_for_result = false
is_completed failed_request = false

-- !status == RequestStatus::WaitingForResult: the negation is 1 for None alone.
abbrev pub is_no_request : RequestStatus → Bool
is_no_request no_request = true
is_no_request waiting_for_result = false
is_no_request completed = false
is_no_request failed_request = false

-- A loop of loads of `request_status_`, which goes on while the test holds.
unfoldable pub await : (RequestStatus → Bool) → ℕ → (ℕ → RequestStatus) → ℕ → Run RequestStatus
await goes_on zero loads k = unfinished
await goes_on (suc fuel) loads k =
    let rest = await goes_on fuel loads (suc k) in
    if goes_on (loads k) then rest else finished (loads k)

-- The status after the result of a request, if one is waited for.
abbrev pub settle : RequestStatus → AlpacaClient → AlpacaClient
settle result a = if is_waiting a.request_status then record a { request_status = result } else a

-- authenticate
unfoldable pub authenticate : Json → AlpacaClient → AlpacaClient
authenticate json a = record a {
  client = send_bytes a.ws_id (json.auth a.api_key a.api_secret) a.client;
}

abbrev pub connected_text : Text
connected_text = b'c' ∷ b'o' ∷ b'n' ∷ b'n' ∷ b'e' ∷ b'c' ∷ b't' ∷ b'e' ∷ b'd' ∷ []

abbrev pub authenticated_text : Text
authenticated_text =
    b'a' ∷ b'u' ∷ b't' ∷ b'h' ∷ b'e' ∷ b'n' ∷ b't' ∷ b'i' ∷ b'c' ∷ b'a' ∷ b't' ∷ b'e' ∷ b'd' ∷ []

-- The branch of "success".
unfoldable pub on_success : Json → Text → AlpacaClient → AlpacaClient
on_success json msg a =
    if text_beq msg connected_text
    then authenticate json a
    else if text_beq msg authenticated_text
    then settle completed a
    else a

-- The call of `closeWebSocket`, with the loads of its message's status.
unfoldable pub close_id : ℕ → (ℕ → Status) → ℕ → AlpacaClient → Run AlpacaClient
close_id fuel status id a =
    close_web_socket fuel status id a.client >>= λ (closed, c). finished (record a { client = c })

-- The loop over the elements. An error ends it, and so does what throws.
unfoldable pub handle_items :
    ℕ → Json → (ℕ → Status) → ℕ → List Item → AlpacaClient → Run AlpacaClient
handle_items fuel json status id [] a = finished a
handle_items fuel json status id (no_object ∷ items) a = handle_items fuel json status id items a
handle_items fuel json status id (no_type ∷ items) a = handle_items fuel json status id items a
handle_items fuel json status id (error_item ∷ items) a =
    close_id fuel status id (settle failed_request a)
handle_items fuel json status id (success_item none ∷ items) a = finished a
handle_items fuel json status id (success_item (some msg) ∷ items) a =
    handle_items fuel json status id items (on_success json msg a)
handle_items fuel json status id (subscription_item ∷ items) a =
    handle_items fuel json status id items (settle failed_request a)
handle_items fuel json status id (other_item ∷ items) a = handle_items fuel json status id items a

-- A message that is complete.
unfoldable pub handle_text : ℕ → Json → (ℕ → Status) → ℕ → AlpacaClient → Run AlpacaClient
handle_text fuel json status id a = elim (json.parse a.buffer) [
  | none ↦ finished (record a { buffer = [] })
  | some items ↦
      handle_items fuel json status id items a >>= λ b. finished (record b { buffer = [] })
]

-- onWebsocketData
unfoldable pub on_websocket_data :
    ℕ → Json → (ℕ → Status) → ℕ → Text → ℕ → AlpacaClient → Run AlpacaClient
on_websocket_data fuel json status id bytes remaining a =
    let b = record a { buffer = a.buffer ++ bytes } in
    if remaining == 0 then handle_text fuel json status id b else finished b

-- onWebsocketOpened
abbrev pub on_websocket_opened : ℕ → AlpacaClient → AlpacaClient
on_websocket_opened id a = record a { ws_id = id }

-- close, and onWebsocketProxyServerDisconnected
unfoldable pub close_alpaca : ℕ → (ℕ → Status) → AlpacaClient → Run AlpacaClient
close_alpaca fuel status a = if a.ws_id == 0 then finished a else close_id fuel status a.ws_id a

-- onWebsocketError
unfoldable pub on_websocket_error : ℕ → (ℕ → Status) → AlpacaClient → Run AlpacaClient
on_websocket_error fuel status a = close_id fuel status a.ws_id a

-- The end of `open`: a socket that is not new is there at once.
unfoldable pub end_open :
    ℕ → (ℕ → RequestStatus) → ℕ × Bool → AlpacaClient → Run (Bool × AlpacaClient)
end_open fuel loads (id, is_new) a =
    if id == 0
    then finished (false, a)
    else if is_new
    then (await is_waiting fuel loads 0 >>= λ status. finished (is_completed status, a))
    else finished (true, record a { ws_id = id; request_status = no_request })

-- open; `loads` are its loads of `request_status_`, which the worker's callbacks set meanwhile
unfoldable pub open_alpaca :
    ℕ
    → Setup
    → Reply WsOpen
    → (ℕ → RequestStatus)
    → Text
    → Text
    → Text
    → AlpacaClient
    → Run (Bool × AlpacaClient)
open_alpaca fuel env reply loads url key secret a =
    open_web_socket fuel env reply url key a.client >>= λ (answer, c).
    end_open fuel loads answer (record a {
      client = c;
      url = url;
      api_key = key;
      api_secret = secret;
      request_status = waiting_for_result;
    })

-- subscribe
unfoldable pub subscribe_alpaca :
    ℕ → Json → (ℕ → RequestStatus) → Text → AlpacaClient → Run (Bool × AlpacaClient)
subscribe_alpaca fuel json loads symbol a =
    let b = record a {
      client = send_bytes a.ws_id (json.subscription symbol) a.client;
      request_status = waiting_for_result;
    } in
    await is_no_request fuel loads 0 >>= λ status. finished (is_completed status, b)
