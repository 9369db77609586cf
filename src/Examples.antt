-- ===== src/Examples.antt =====
-- The theorems on small values, for the code of the other modules.
pub mod Frames
pub mod Batches
pub mod Services
pub mod Routes
pub mod Requests
pub mod Searches
