-- ===== src/Bt.antt =====
-- internal/bt: the bencode codec and the metadata protocol.
pub mod Decimal
pub mod Value
pub mod Encode
pub mod Decode
pub mod Received
pub mod RoundTrip
pub mod Access
pub mod Literal
pub mod Panic
pub mod Metadata
