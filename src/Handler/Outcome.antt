-- ===== src/Handler/Outcome.antt =====
-- The shape of what the handling of each event does (src/index.ts, `handleEvent`).
pub mod Leaves
pub mod Swap
pub mod Byreal
pub mod Orca
pub mod Meteora
pub mod Pcs
pub mod Dammv2
pub mod Event
pub mod Attribution
pub mod Log
