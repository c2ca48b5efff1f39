-- ===== src/Radius.antt =====
-- crates/radius-client: building RADIUS requests and reading RADIUS replies.
pub mod Consts
pub mod Proto
pub mod Error
pub mod Sanitize
pub mod EapMessage
pub mod Context
pub mod Request
pub mod Accounting
pub mod Reply
