-- ===== src/Examples.antt =====
-- Runs of the models at concrete inputs.
mod Texts
mod Sessions
mod Messages
mod Clients
mod Parsers
mod Throttling
mod Servers
mod Dictionaries
mod RoundTrips
