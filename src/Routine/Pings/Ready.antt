-- ===== src/Routine/Pings/Ready.antt =====
-- routine.go: when the health service says that the tunnel is ready.
use model_lib.Routine.Pings.Answered.{Answered}
