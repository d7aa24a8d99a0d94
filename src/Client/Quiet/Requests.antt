-- ===== src/Client/Quiet/Requests.antt =====
-- Each call of the user's leaves the sockets alone.
use websocket_proxy.Base.{ℕ, suc, refl, Bool, false, Text, if-case, ltb, leb, ◌==◌, length}
use websocket_proxy.Protocol.{
  Status, WsOpen, open_ws, close_ws, subscribe, unsubscribe, ws_request, log_level,
}
use websocket_proxy.Server.Callbacks.{open_size, close_size}
use websocket_proxy.Client.State.{Client, is_failed}
use websocket_proxy.Client.Waiting.{wait_for_response}
use websocket_proxy.Client.Connecting.{Reply, Setup, strcpy_s, c_str}
use websocket_proxy.Client.Requests.{
  url_limit, subscription_size, log_level_size, request_size, response_timeout, send_open,
  send_open_message, opened_socket, open_web_socket, close_web_socket, copy_symbol, subscribe_to,
  unsubscribe_from, set_log_level, send_bytes, destroy,
}
use websocket_proxy.Client.Quiet.{
  Each, Each-bind, Each-if, Each-map, Quiet, Quiet-refl, Quiet-trans, Quiet-same,
  Quiet-send_request, Quiet-unregister_from,
}
use websocket_proxy.Client.Quiet.Calls.{
  Behind, Waits, QuietRun, QuietWait, Quiet-connect, Quiet-wait_for_response,
}

-- A copy of a string decides only whether the call goes on.
abbrev Any : Text → Type 0
Any _ = Unit

Any-strcpy_s : (n : ℕ) (t : Text) → Each Any (strcpy_s n t)
Any-strcpy_s n t = Each-if Any (ltb (length (c_str t)) n) _ _ tt tt

Any-copy_symbol : (t : Text) → Each Any (copy_symbol t)
Any-copy_symbol t = Each-if Any (leb (length t) 256) _ _ tt tt

-- What follows a quiet call.
Quiet-wait :
    (fuel timeout : ℕ) (status : ℕ → Status) (c d : Client)
    → Quiet c d
    → QuietWait c (wait_for_response fuel timeout status d)
Quiet-wait fuel timeout status c d q =
    Each-map (Waits d) (Waits c) _ (λ r k. Quiet-trans q k)
      (Quiet-wait_for_response fuel timeout status d)

pub Quiet-send_open : (url key : Text) (c : Client) → QuietRun c (send_open url key c)
unfolding send_open
Quiet-send_open url key c =
    Each-bind Any (Behind c) (strcpy_s 512 url) _ (Any-strcpy_s 512 url) λ u _.
      Each-bind Any (Behind c) (strcpy_s 512 key) _ (Any-strcpy_s 512 key)
        λ k _. Quiet-send_request open_size 0 (open_ws _) c refl refl

pub Quiet-send_open_message :
    (fuel : ℕ) (env : Setup) (url key : Text) (c : Client)
    → QuietRun c (send_open_message fuel env url key c)
unfolding send_open_message
Quiet-send_open_message fuel env url key c =
    Each-if (Behind c) (ltb url_limit (length url)) _ _ (Quiet-refl c) (
      Each-if (Behind c) (c.server_pid == 0) _ _
        (Each-bind (Behind c) (Behind c) _ _ (Quiet-connect fuel env c) λ (connected, d) q.
          Each-if (Behind c) connected _ _
            (Each-map (Behind d) (Behind c) _ (λ r k. Quiet-trans q k) (Quiet-send_open url key d))
            q)
        (Quiet-send_open url key c))

Quiet-opened_socket :
    (reply : Reply WsOpen) (k : ℕ) (c : Client) → Quiet c (opened_socket reply k c).1
unfolding opened_socket
Quiet-opened_socket reply k c =
    if-case (λ (r : (ℕ × Bool) × Client). Quiet c r.1) (is_failed (reply.status (suc k))) _ _
      (λ _. Quiet-same refl refl refl refl refl) (λ _. Quiet-same refl refl refl refl refl)

pub Quiet-open_web_socket :
    (fuel : ℕ) (env : Setup) (reply : Reply WsOpen) (url key : Text) (c : Client)
    → QuietRun c (open_web_socket fuel env reply url key c)
unfolding open_web_socket
Quiet-open_web_socket fuel env reply url key c =
    Each-bind (Behind c) (Behind c) _ _ (Quiet-send_open_message fuel env url key c) λ (sent, d) q.
      Each-if (Behind c) sent _ _
        (Each-bind (Waits c) (Behind c) _ _ (Quiet-wait fuel 30000 reply.status c d q)
          λ (answered, k, e) p.
            if-case (λ (r : (ℕ × Bool) × Client). Quiet c r.1) answered _ _
              (λ _. Quiet-trans p (Quiet-opened_socket reply k e)) (λ _. p))
        q

pub Quiet-close_web_socket :
    (fuel : ℕ) (status : ℕ → Status) (id : ℕ) (c : Client)
    → QuietRun c (close_web_socket fuel status id c)
unfolding close_web_socket
Quiet-close_web_socket fuel status id c =
    Each-bind (Waits c) (Behind c) _ _
      (Quiet-wait fuel response_timeout status c _
        (Quiet-send_request close_size 0 (close_ws _) c refl refl))
      λ (answered, k, e) p.
        if-case (λ (r : Bool × Client). Quiet c r.1) answered _ _
          (λ _. Quiet-trans p (Quiet-unregister_from e)) (λ _. p)

pub Quiet-subscribe_to :
    (fuel : ℕ) (status : ℕ → Status) (id : ℕ) (symbol bytes : Text) (type : ℕ) (c : Client)
    → QuietRun c (subscribe_to fuel status id symbol bytes type c)
unfolding subscribe_to
Quiet-subscribe_to fuel status id symbol bytes type c =
    Each-bind Any (Behind c) (copy_symbol symbol) _ (Any-copy_symbol symbol) λ s _.
      Each-bind (Waits c) (Behind c) _ _
        (Quiet-wait fuel response_timeout status c _
          (Quiet-send_request subscription_size (length bytes) (subscribe _) c refl refl))
        λ (answered, k, e) p. p

pub Quiet-unsubscribe_from :
    (id : ℕ) (symbol bytes : Text) (c : Client) → QuietRun c (unsubscribe_from id symbol bytes c)
unfolding unsubscribe_from
Quiet-unsubscribe_from id symbol bytes c =
    Each-bind Any (Behind c) (copy_symbol symbol) _ (Any-copy_symbol symbol)
      λ s _. Quiet-send_request subscription_size (length bytes) (unsubscribe _) c refl refl

pub Quiet-set_log_level : (level : ℕ) (c : Client) → Quiet c (set_log_level level c).1
unfolding set_log_level
Quiet-set_log_level level c = Quiet-send_request log_level_size 0 (log_level _) c refl refl

pub Quiet-send_bytes : (id : ℕ) (bytes : Text) (c : Client) → Quiet c (send_bytes id bytes c)
unfolding send_bytes
Quiet-send_bytes id bytes c =
    Quiet-send_request request_size (length bytes) (ws_request _) c refl refl

pub Quiet-destroy : (c : Client) → Quiet c (destroy c)
unfolding destroy
Quiet-destroy c =
    if-case (λ d. Quiet c (record d { run = false })) (c.server_pid == 0) _ _
      (λ _. Quiet-same refl refl refl refl refl)
      (λ _. Quiet-trans (Quiet-unregister_from c) (Quiet-same refl refl refl refl refl))
