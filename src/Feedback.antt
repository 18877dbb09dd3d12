-- ===== src/Feedback.antt =====
-- feedback_service: the store of the feedback receipts.
pub mod Quota
pub mod Receipts
pub mod Store
mod Tests
