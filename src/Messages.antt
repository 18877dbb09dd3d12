-- ===== src/Messages.antt =====
-- migrator/messages.py: the parts of the message migration around the delivery of a message.
pub mod Split
pub mod Outcomes
pub mod Merging
pub mod Reactions
mod Tests
