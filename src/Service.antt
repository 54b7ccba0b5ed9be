-- ===== src/Service.antt =====
-- InferenceService (worker/python/src/memory_core_worker/service.py): the handler
-- `ProcessConsolidationWindow` with its passes over one text model.
pub mod Exec
pub mod Inputs
pub mod Recollections
pub mod Handler
pub mod Sending
pub mod Limits
pub mod Batches
