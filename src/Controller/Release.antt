-- ===== src/Controller/Release.antt =====
-- `handleDeletion`: when the finalizer of a subscription is removed.
use models_as_a_service_mids.Controller.Run.{Run}
