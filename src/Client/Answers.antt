-- ===== src/Client/Answers.antt =====
-- What the calls of a client answer (include/websocket_proxy/websocket_proxy_client.h).
use websocket_proxy.Base.{
  ℕ, zero, suc, ◌≤◌, ◌<◌, ◌≡◌, ◌≢◌, refl, subst, Bool, true, false, ◌∷◌, Text, if-case, ltb, leb,
  ◌==◌, length, arith, Bool-cases, inl, inr,
}
use websocket_proxy.Base.{◌⊎◌, []}
use websocket_proxy.Protocol.{Status, failed, WsOpen, subscribe, unregister, open_ws, c_string}
use websocket_proxy.Server.Callbacks.{message_size, get_message_size}
use websocket_proxy.Client.State.{
  Client, publish_request, request, send_request, unregister_from, client_tick, is_pending,
}
use websocket_proxy.Client.Waiting.{
  Run, finished, aborted, unfinished, wait_loop, wait_for_response,
}
use websocket_proxy.Client.Connecting.{Reply, Setup, c_str}
use websocket_proxy.Client.Requests.{
  url_limit, response_timeout, send_open, send_open_message, open_web_socket, close_web_socket,
  subscribe_to, subscription, subscription_size,
}
use websocket_proxy.Client.Quiet.{Each, Each-bind}

-- The client is not registered any more, and the server was told.
pub record IsUnregistered (d : Client) : Type 0 where
  pub server : d.server_pid ≡ 0
  pub told :
      (e : Client) × (d.calls ≡ publish_request message_size (request e unregister) ∷ e.calls)
      × (d.pid ≡ e.pid)

abbrev Closed : Bool × Client → Type 0
Closed r = r.0 ≡ true → IsUnregistered r.1

abbrev Any : {A : Type 0} → A → Type 0
Any _ = Unit

trivially : {A : Type 0} (m : Run A) → Each Any m
trivially (finished a) = tt
trivially aborted = tt
trivially unfinished = tt

not_true : false ≢ true
not_true h = cc

-- When `closeWebSocket` succeeds the client has also unregistered from the server, whichever sockets
-- it has besides.
pub close_web_socket-unregisters :
    (fuel : ℕ) (status : ℕ → Status) (id : ℕ) (c d : Client)
    → close_web_socket fuel status id c ≡ finished (true, d)
    → IsUnregistered d
unfolding close_web_socket unregister_from send_request
close_web_socket-unregisters fuel status id c d e =
    subst (Each Closed) e
      (Each-bind Any Closed (wait_for_response fuel response_timeout status _) _ (trivially _)
        λ (answered, k, f) _.
          if-case Closed answered _ _ (λ _ _. record { server = refl; told = (f, refl, refl) })
            (λ _ h. absurd (not_true h)))
      refl

-- An answer that is there at once.
pub wait-at_once :
    (fuel timeout : ℕ) (status : ℕ → Status) (c : Client)
    → is_pending (status 0) ≡ false
    → wait_for_response (suc fuel) timeout status c ≡ finished (true, 0, client_tick c)
unfolding wait_for_response wait_loop
wait-at_once fuel timeout status c h = rw h refl

-- `subscribe` answers true although the server's answer is that it failed, if the symbol fits and the
-- answer is there at once.
pub subscribe_to-refused :
    (fuel : ℕ) (status : ℕ → Status) (id : ℕ) (symbol bytes : Text) (type : ℕ) (c : Client)
    → status 0 ≡ failed
    → length symbol ≤ 256
    → (d : Client) × (subscribe_to (suc fuel) status id symbol bytes type c ≡ finished (true, d))
unfolding subscribe_to
subscribe_to-refused fuel status id symbol bytes type c f short =
    let d =
      send_request (get_message_size subscription_size (length bytes))
        (request c (subscribe (subscription id symbol bytes type))) c in
    (client_tick d, rw (fits, wait-at_once fuel response_timeout status d (rw f refl)) refl)
  where
    fits : leb (length symbol) 256 ≡ true
    fits = ground arith

length-c_string : (n : ℕ) (t : Text) → length (c_string n t) ≤ length t
unfolding c_string
length-c_string zero t = omega arith
length-c_string (suc n) [] = omega arith
length-c_string (suc n) (c ∷ t) =
    if-case (λ (u : Text). length u ≤ suc (length t)) (c == 0) _ _ (λ _. omega arith)
      (λ _. omega (arith, length-c_string n t))

-- The request to open a socket.
abbrev pub opening : Text → Text → WsOpen
opening url key = record {
  url = url;
  api_key = key;
  client_pid = 0;
  id = 0;
  new_connection = false;
  err = [];
}

-- What comes of a URL and an api_key: the URL is too long, and nothing is done; or it fits and the
-- api_key does not, and the process ends; or both fit, and one message is sent with both.
abbrev pub IsLimited : ℕ → Setup → Reply WsOpen → Text → Text → Client → Type 0
IsLimited fuel env reply url key c =
    ((255 < length url) × (open_web_socket fuel env reply url key c ≡ finished ((0, false), c)))
    ⊎ (((length url ≤ 255)
          × (512 ≤ length (c_str key))
          × (open_web_socket fuel env reply url key c ≡ aborted))
        ⊎ ((length url ≤ 255)
            × (length (c_str key) < 512)
            × ((d : Client) × (send_open_message fuel env url key c ≡ finished (true, d))
                × (d.calls
                    ≡ publish_request 1307 (request c (open_ws (opening (c_str url) (c_str key))))
                      ∷ c.calls))))

-- Of a connected client, `openWebSocket` refuses a URL of more than 255 bytes whatever the api_key is,
-- without a message; with a shorter URL, an api_key of 512 bytes or more before its NUL ends the
-- process, and a shorter one is sent with the URL in one message.
pub open_web_socket-limits :
    (fuel : ℕ) (env : Setup) (reply : Reply WsOpen) (url key : Text) (c : Client)
    → c.server_pid ≢ 0
    → IsLimited fuel env reply url key c
unfolding open_web_socket send_open_message send_open send_request
open_web_socket-limits fuel env reply url key c known =
    elim (Bool-cases (ltb url_limit (length url))) [
      | inl over ↦ inl (ground arith, rw over refl)
      | inr within ↦
          let short : length url ≤ 255 = ground arith in
          let fits : ltb (length (c_str url)) 512 ≡ true =
            fits_within (length (c_str url)) (omega (arith, length-c_string (length url) url)) in
          elim (Bool-cases (ltb (length (c_str key)) 512)) [
            | inl small ↦
                let d =
                  send_request 1307 (request c (open_ws (opening (c_str url) (c_str key)))) c in
                inr (inr (short, ground arith, (d, rw (within, there, fits, small) refl, refl)))
            | inr big ↦ inr (inl (short, ground arith, rw (within, there, fits, big) refl))
          ]
    ]
  where
    there : c.server_pid == 0 ≡ false
    there = ground arith

    fits_within : (n : ℕ) → n ≤ 255 → ltb n 512 ≡ true
    fits_within n h = ground arith
