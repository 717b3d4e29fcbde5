-- ===== src/Http.antt =====
-- src/http
pub mod Types
pub mod HdrValue
pub mod Request
pub mod ParseCtx
pub mod Feed
pub mod Response
pub mod Resource
pub mod Chain
