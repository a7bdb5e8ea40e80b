-- ===== src/Skipvector.antt =====
-- The skipvector cache of disco-skip/include/skipvector_disco.h.
pub mod Nodes
pub mod Descent
pub mod Mirror
pub mod Layers
pub mod Walk
pub mod Locate
pub mod Updates
pub mod Stored
pub mod Install
pub mod Split
pub mod Targets
pub mod Pointers
pub mod Closed
pub mod Steps
pub mod Boundaries
pub mod Nested
pub mod Building
pub mod Insertion
pub mod Climbing
pub mod Repair
pub mod Gather
pub mod Reconcile
pub mod Heights
mod Tests
