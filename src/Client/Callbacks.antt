-- ===== src/Client/Callbacks.antt =====
-- What the callbacks of a client have told its user (include/websocket_proxy/
-- websocket_proxy_client.h, `WebsocketProxyCallback`): an account that is kept of the calls alone.
use websocket_proxy.Base.{ℕ, ◌≡◌, true, List, [], ◌∷◌, nat_eq}
use websocket_proxy.Base.Sets.{has, insert, remove}
use websocket_proxy.Client.State.{
  Call, publish_request, server_disconnected, websocket_opened, websocket_closed, websocket_error,
  websocket_data,
}

-- The sockets that were opened and not closed.
unfoldable pub opened_ids : List Call → List ℕ
opened_ids [] = []
opened_ids (websocket_opened id ∷ cs) = insert id (opened_ids cs)
opened_ids (websocket_closed id ∷ cs) = remove id (opened_ids cs)
opened_ids (websocket_error _ _ ∷ cs) = opened_ids cs
opened_ids (websocket_data _ _ _ ∷ cs) = opened_ids cs
opened_ids (server_disconnected ∷ cs) = opened_ids cs
opened_ids (publish_request _ _ ∷ cs) = opened_ids cs

-- Data, an error or a close is told only of a socket that is open then.
unfoldable pub IsOrdered : List Call → Type 0
unfolding opened_ids
IsOrdered [] = Unit
IsOrdered (websocket_opened id ∷ cs) = IsOrdered cs
IsOrdered (websocket_closed id ∷ cs) = (has id (opened_ids cs) ≡ true) × IsOrdered cs
IsOrdered (websocket_error id _ ∷ cs) = (has id (opened_ids cs) ≡ true) × IsOrdered cs
IsOrdered (websocket_data id _ _ ∷ cs) = (has id (opened_ids cs) ≡ true) × IsOrdered cs
IsOrdered (server_disconnected ∷ cs) = IsOrdered cs
IsOrdered (publish_request _ _ ∷ cs) = IsOrdered cs

-- The calls of the user's callbacks.
unfoldable pub told : List Call → List Call
told [] = []
told (publish_request _ _ ∷ cs) = told cs
told (server_disconnected ∷ cs) = server_disconnected ∷ told cs
told (websocket_opened id ∷ cs) = websocket_opened id ∷ told cs
told (websocket_closed id ∷ cs) = websocket_closed id ∷ told cs
told (websocket_error id err ∷ cs) = websocket_error id err ∷ told cs
told (websocket_data id bytes remaining ∷ cs) = websocket_data id bytes remaining ∷ told cs
