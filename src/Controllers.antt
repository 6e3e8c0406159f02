-- ===== src/Controllers.antt =====
-- The package controllers: the reconciler of TriggerService objects.
pub mod TriggerService
