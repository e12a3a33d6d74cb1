-- ===== src/Messages/RoundTrip.antt =====
-- Packing a message and unpacking it again.
pub mod Loops
pub mod Single
pub mod Returns
pub mod BulkKeys
pub mod BulkRecords
