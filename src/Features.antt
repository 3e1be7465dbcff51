-- ===== src/Features.antt =====
-- What the features of the control plane contribute, and how it is composed
-- (src/blitzecdn/core/features).
pub mod Merge
pub mod Roles
pub mod Modules
mod Examples
