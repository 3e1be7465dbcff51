-- ===== src/Deployments.antt =====
-- The rollout of a release to the edges (src/blitzecdn/capabilities/deployments): the rows of its
-- progress, the walk of each edge through the phases, and the history of deployments.
pub mod Targets
pub mod Rollout
pub mod History
pub mod Convergence
pub mod Admission
mod Examples
