-- ===== src/Tests.antt =====
-- Runs of the models at concrete inputs.
pub mod Data
pub mod Field
pub mod Primitives
mod Keys
mod Store
mod Orchestration
pub mod Protocols
mod Runs
mod Frost
mod FrostScheme
pub mod Wire
mod Asn1
pub mod Schemes
mod Quorum
mod Reload
mod Precomputations
mod Sharing
mod Pairings
