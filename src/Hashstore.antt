-- ===== src/Hashstore.antt =====
-- internal/hashstore/store.go: the history of the hashrates, in samples that grow coarser with age.
pub mod Downsample
pub mod Store
mod Tests
