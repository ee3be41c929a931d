-- ===== src/Store.antt =====
-- store/: the keys and values of the server, with their memory accounting, expiry and eviction.
pub mod Words
pub mod Lfu
pub mod Entry
pub mod Keys
pub mod Contents
pub mod Strings
pub mod Sketches
pub mod Eviction
pub mod Tests
