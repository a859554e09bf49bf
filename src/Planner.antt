-- ===== src/Planner.antt =====
-- engine/planner: the choice of a physical access for SELECT and DELETE, and the measured plan.
pub mod Plan
pub mod Steps
pub mod Metadata
pub mod Access
pub mod Physical
pub mod Source
pub mod Select
pub mod Delete
mod Tests
