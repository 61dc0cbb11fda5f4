-- ===== src/Udp/Packets/Answers.antt =====
-- udp_proxy.go: what a goroutine of a session reads from its connection, and what it writes to its client.
use model_lib.Base.{
  ℕ, false, Bool-cases, List, [], ◌∷◌, map, ◌==◌, ◌≡◌, ◌⊎◌, if◌then◌else◌, inl, inr, sym, ap, ◌∙◌,
  Bytes,
}
use model_lib.Udp.{UdpSession}
use model_lib.Udp.Invariant.{running}
use model_lib.Udp.Packets.{Event, accepted, refused, to_remote, from_remote, to_client}
use model_lib.Udp.Packets.Kept.{Kept}

-- What was read from the connection of session `id`, the newest first.
abbrev pub replies : ℕ → List Event → List Bytes
replies id [] = []
replies id (from_remote i packet ∷ trace) =
    let rest = replies id trace in if i == id then packet ∷ rest else rest
replies id (accepted from packet ∷ trace) = replies id trace
replies id (refused from packet ∷ trace) = replies id trace
replies id (to_remote i write packet ∷ trace) = replies id trace
replies id (to_client i dst packet ∷ trace) = replies id trace

-- What its goroutine has written, with the addresses, the newest first.
abbrev pub answers : ℕ → List Event → List (Bytes × Bytes)
answers id [] = []
answers id (to_client i dst packet ∷ trace) =
    let rest = answers id trace in if i == id then (dst, packet) ∷ rest else rest
answers id (accepted from packet ∷ trace) = answers id trace
answers id (refused from packet ∷ trace) = answers id trace
answers id (to_remote i write packet ∷ trace) = answers id trace
answers id (from_remote i packet ∷ trace) = answers id trace

abbrev pub addressed : Bytes → List Bytes → List (Bytes × Bytes)
addressed src = map (λ packet. (src, packet))

-- All replies were written to the client of the session, or all but the last, and the goroutine has ended.
abbrev pub AreAnswered : UdpSession → ℕ → List Event → Type 0
AreAnswered x id trace =
    (answers id trace ≡ addressed x.src (replies id trace))
    ⊎ ((running x.reader ≡ false)
        × (last : Bytes) × (earlier : List Bytes) × (replies id trace ≡ last ∷ earlier)
        × (answers id trace ≡ addressed x.src earlier))

pub AreAnswered-Kept :
    (x y : UdpSession) (id : ℕ) (trace : List Event)
    → Kept x y
    → AreAnswered x id trace
    → AreAnswered y id trace
AreAnswered-Kept x y id trace kept (inl all) =
    inl (all ∙ ap (λ src. addressed src (replies id trace)) (sym kept.0))
AreAnswered-Kept x y id trace kept (inr (over, last, earlier, read_, wrote)) = inr (
  elim (Bool-cases (running y.reader)) [
    | inl runs ↦ cc (sym (kept.1 runs) ∙ over)
    | inr ends ↦ ends
  ],
  last,
  earlier,
  read_,
  wrote ∙ ap (λ src. addressed src earlier) (sym kept.0),
)
