-- ===== src/Exchange.antt =====
-- The client library and the server process together: what one publishes, the other one reads.
pub mod Requests
pub mod Opening
pub mod Notices
