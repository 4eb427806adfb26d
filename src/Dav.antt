-- ===== src/Dav.antt =====
-- internal/dav: the sync engine.
pub mod Types
pub mod Extract
pub mod Keyed
pub mod Href
pub mod Mirror
pub mod OneWay
pub mod Bidi
pub mod Sync
pub mod Memory
pub mod Window
