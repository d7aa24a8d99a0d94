-- ===== src/Server.antt =====
-- src/websocket_proxy.h, src/websocket_proxy.cpp and src/websocket.h: the proxy process.
pub mod State
pub mod Callbacks
pub mod Sockets
pub mod Clients
pub mod Requests
pub mod Subscriptions
pub mod Loop
pub mod Steps
pub mod View
pub mod Telling
pub mod Core
pub mod Handles
pub mod Lifetime
pub mod Published
pub mod Deafness
pub mod Sharing
pub mod Delivery
pub mod Failing
pub mod Departure
pub mod Shutdown
pub mod Subscribing
pub mod Unsubscribing
pub mod Closing
pub mod Ending
pub mod Idling
pub mod Ended
