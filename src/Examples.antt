-- ===== src/Examples.antt =====
-- Runs on concrete inputs: libraries by simple functions, and each theorem at an input that meets its
-- conditions.
mod Libraries
mod Payloads
mod Events
mod Relays
mod Caches
mod Confirmations
mod Deliveries
mod Wrapping
mod Messages
mod Inboxes
mod Servers
