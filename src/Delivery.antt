-- ===== src/Delivery.antt =====
-- state.py (delivery evidence) and migrator/delivery.py: receipt-backed delivery of messages.
pub mod Receipt
pub mod Send
pub mod History
pub mod Exec
pub mod Keys
pub mod Legacy
pub mod Files
pub mod Parts
pub mod Deliver
pub mod Safety
pub mod Retry
pub mod Retire
pub mod Confirmed
mod Tests
