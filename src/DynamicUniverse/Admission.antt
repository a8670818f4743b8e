-- ===== src/DynamicUniverse/Admission.antt =====
-- new/src/dynamic_universe/admission_engine.py: which stocks of the watch universe become candidates.
pub mod Types
pub mod Extract
pub mod Rules
pub mod Handle
pub mod Cases
pub mod Safety
