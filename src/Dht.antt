-- ===== src/Dht.antt =====
-- internal/dht: identifiers, the routing table, the KRPC messages and the node.
pub mod Id
pub mod Routing
pub mod Compact
pub mod Krpc
pub mod Token
pub mod Node
pub mod Pool
pub mod Active
pub mod Search
pub mod Life
