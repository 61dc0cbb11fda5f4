-- ===== src/Udp/Packets/Answered.antt =====
-- udp_proxy.go: the packets that come from the connection of a session, on their way to its client.
use model_lib.Base.{ℕ, ◌<◌, ◌≤◌, [], ◌≡◌}
use model_lib.Udp.Packets.{Traffic}
use model_lib.Udp.Packets.Kept.{Kept}
use model_lib.Udp.Packets.Effect.{Effect}
use model_lib.Udp.Packets.Answers.{replies, answers, AreAnswered}

-- The replies of all sessions are answered, and there are none of a session that does not exist.
record Answered (t : Traffic) : Type 0 where
  those : (id : ℕ) → id < t.state.next → AreAnswered (t.state.heap id) id t.trace
  later : (id : ℕ) → t.state.next ≤ id → (replies id t.trace ≡ []) × (answers id t.trace ≡ [])
