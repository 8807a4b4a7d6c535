-- ===== src/Network.antt =====
-- The network layer of src/network: rate-limiter.js, onion-routing.js and the message queue of
-- connection-pool.js, with relay-node.js and node.js.
pub mod RateLimiter
pub mod SizeLimiter
pub mod Reputation
pub mod OnionRouting
pub mod MessageQueue
pub mod WorkLimiter
pub mod RelayNode
pub mod ConnectionPool
pub mod MailNode
