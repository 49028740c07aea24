-- ===== src/Collections.antt =====
-- The standard library's hash sets and hash maps. The program reads them by membership, by key
-- and by size; the order of the lists that stand for them is not observed.
mod Keys
pub mod Set
pub mod Map
unfoldable pub use Keys.*
