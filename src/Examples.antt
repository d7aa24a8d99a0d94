-- ===== src/Examples.antt =====
-- Tests, and the theorems at concrete inputs.
mod Urls
mod Process
mod Client
mod Exchange
mod Owner
mod Arguments
mod Alpaca
mod Sockets
mod Clients
mod World
mod Ending
