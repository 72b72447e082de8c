-- ===== src/Tests.antt =====
-- The properties at concrete inputs.
mod State
mod Lists
mod Sleepers
mod Shared
mod Locking
mod Ports
mod Calls
mod Memory
mod Modules
mod Arrays
