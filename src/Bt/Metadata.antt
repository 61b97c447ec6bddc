-- ===== src/Bt/Metadata.antt =====
-- internal/bt/metadata.go: the download of a torrent's metadata from a peer.
pub mod Wire
pub mod Handshake
pub mod Pieces
pub mod Info
pub mod Session
