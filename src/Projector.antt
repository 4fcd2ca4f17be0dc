-- ===== src/Projector.antt =====
-- content_events.py: `ClaudeSdkEventProjector`.
pub mod Events
pub mod Model
pub mod Provenance
pub mod Gather
pub mod Identity
mod Tests
