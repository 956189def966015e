-- ===== src/Service/Tasks/Announced.antt =====
-- What the streams get to see where CreateTask and TransitionTaskStatus of
-- internal/service/service.go answer a task: publish reaches every subscriber of the hub.
use atlas_c.Base.Assoc.{string_eq}
use atlas_c.Events.{channel_eq}
use atlas_c.Service.Tasks
