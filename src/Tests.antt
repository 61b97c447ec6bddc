-- ===== src/Tests.antt =====
-- Sample data, and every theorem with conditions at a concrete input that meets them.
mod Samples
mod Codec
mod Messages
mod Table
mod Crawling
mod Peers
mod Saving
mod Pages
