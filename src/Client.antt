-- ===== src/Client.antt =====
-- include/websocket_proxy/websocket_proxy_client.h: the client library.
pub mod State
pub mod Waiting
pub mod Connecting
pub mod Requests
pub mod Worker
pub mod Callbacks
pub mod Sent
pub mod Quiet
pub mod Halting
pub mod Steps
pub mod Acting
pub mod Faithful
pub mod Sending
pub mod Noticed
pub mod Answers
pub mod Answered
pub mod Silence
