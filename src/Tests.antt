-- ===== src/Tests.antt =====
-- The theorems at concrete inputs.
mod Toy
mod Texts
mod Entries
mod Crypto
mod Limits
mod Auth
mod Queue
mod Onion
mod Storage
mod Registry
mod Relay
mod Mail
mod Work
mod Pool
mod Messages
mod Sealed
mod Api
mod Attachments
mod Keys
mod Sessions
mod Gateway
