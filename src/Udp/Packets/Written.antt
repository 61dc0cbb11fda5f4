-- ===== src/Udp/Packets/Written.antt =====
-- udp_proxy.go: the packets of a client that were taken in and that were written on.
use model_lib.Base.{
  ℕ, Bool, true, false, Option, none, some, Error, map, ap, ◌<◌, ◌≤◌, List, [], ◌∷◌, ◌≡◌, ◌⊎◌, inl,
  inr, if◌then◌else◌, refl, arith, Bytes, equal,
}
use model_lib.Udp.{UdpSession, MainLoop, listening, holding}
use model_lib.Udp.Packets.{Event, accepted, refused, to_remote, from_remote, to_client}
use model_lib.Udp.Packets.Kept.{Kept}

-- The packets of client `src` for which there was a session, the newest first.
abbrev pub taken : Bytes → List Event → List Bytes
taken src [] = []
taken src (accepted from packet ∷ trace) =
    let rest = taken src trace in if equal from src then packet ∷ rest else rest
taken src (refused from packet ∷ trace) = taken src trace
taken src (to_remote id write packet ∷ trace) = taken src trace
taken src (from_remote id packet ∷ trace) = taken src trace
taken src (to_client id dst packet ∷ trace) = taken src trace

-- What was handed to Write on the connections of the sessions of client `src`, with the errors that it
-- returned, the newest first.
abbrev pub attempts : (ℕ → UdpSession) → Bytes → List Event → List (Option Error × Bytes)
attempts heap src [] = []
attempts heap src (to_remote id write packet ∷ trace) =
    let rest = attempts heap src trace in
    if equal (heap id).src src then (write, packet) ∷ rest else rest
attempts heap src (accepted from packet ∷ trace) = attempts heap src trace
attempts heap src (refused from packet ∷ trace) = attempts heap src trace
attempts heap src (from_remote id packet ∷ trace) = attempts heap src trace
attempts heap src (to_client id dst packet ∷ trace) = attempts heap src trace

abbrev pub packets : List (Option Error × Bytes) → List Bytes
packets = map (λ attempt. attempt.1)

-- The packets that were handed to Write, whether it failed or not.
abbrev pub handed : (ℕ → UdpSession) → Bytes → List Event → List Bytes
handed heap src trace = packets (attempts heap src trace)

-- The packets that were written without an error.
abbrev pub written : List (Option Error × Bytes) → List Bytes
written [] = []
written ((none, packet) ∷ tries) = packet ∷ written tries
written ((some e, packet) ∷ tries) = written tries

-- Some Write has failed.
abbrev pub HasFailed : List (Option Error × Bytes) → Type 0
HasFailed [] = ⊥
HasFailed ((none, packet) ∷ tries) = HasFailed tries
HasFailed ((some e, packet) ∷ tries) = Unit {0}

pub written-packets :
    (tries : List (Option Error × Bytes)) → HasFailed tries ⊎ (written tries ≡ packets tries)
written-packets [] = inr refl
written-packets ((none, packet) ∷ tries) = elim (written-packets tries) [
  | inl lost ↦ inl lost
  | inr same ↦ inr (ap (◌∷◌ packet) same)
]
written-packets ((some e, packet) ∷ tries) = inl tt

-- The packet that the main loop has yet to write, if it is one of client `src`.
abbrev pub held_for : MainLoop → Bytes → Bytes → Bytes → List Bytes
held_for listening client buf src = []
held_for (holding id) client buf src = if equal client src then buf ∷ [] else []

-- The sessions that packets were written to exist.
abbrev pub Below : ℕ → List Event → Type 0
Below n [] = Unit
Below n (to_remote id write packet ∷ trace) = (id < n) × Below n trace
Below n (accepted from packet ∷ trace) = Below n trace
Below n (refused from packet ∷ trace) = Below n trace
Below n (from_remote id packet ∷ trace) = Below n trace
Below n (to_client id dst packet ∷ trace) = Below n trace

pub Below-≤ : (n m : ℕ) (trace : List Event) → n ≤ m → Below n trace → Below m trace
Below-≤ n m [] le h = h
Below-≤ n m (to_remote id write packet ∷ trace) le h =
    (omega (arith, h.0), Below-≤ n m trace le h.1)
Below-≤ n m (accepted from packet ∷ trace) le h = Below-≤ n m trace le h
Below-≤ n m (refused from packet ∷ trace) le h = Below-≤ n m trace le h
Below-≤ n m (from_remote id packet ∷ trace) le h = Below-≤ n m trace le h
Below-≤ n m (to_client id dst packet ∷ trace) le h = Below-≤ n m trace le h

-- The attempts are the same in a heap where the sessions have the same clients.
attempts-Kept :
    (heap heap' : ℕ → UdpSession) (n : ℕ) (src : Bytes) (trace : List Event)
    → ((i : ℕ) → i < n → Kept (heap i) (heap' i))
    → Below n trace
    → attempts heap' src trace ≡ attempts heap src trace
attempts-Kept heap heap' n src [] kept h = refl
attempts-Kept heap heap' n src (to_remote id write packet ∷ trace) kept h =
    rw ((kept id h.0).0, attempts-Kept heap heap' n src trace kept h.1) refl
attempts-Kept heap heap' n src (accepted from packet ∷ trace) kept h =
    attempts-Kept heap heap' n src trace kept h
attempts-Kept heap heap' n src (refused from packet ∷ trace) kept h =
    attempts-Kept heap heap' n src trace kept h
attempts-Kept heap heap' n src (from_remote id packet ∷ trace) kept h =
    attempts-Kept heap heap' n src trace kept h
attempts-Kept heap heap' n src (to_client id dst packet ∷ trace) kept h =
    attempts-Kept heap heap' n src trace kept h

pub handed-Kept :
    (heap heap' : ℕ → UdpSession) (n : ℕ) (src : Bytes) (trace : List Event)
    → ((i : ℕ) → i < n → Kept (heap i) (heap' i))
    → Below n trace
    → handed heap' src trace ≡ handed heap src trace
handed-Kept heap heap' n src trace kept h = ap packets (attempts-Kept heap heap' n src trace kept h)

pub packets-cons :
    (b : Bool) (write : Option Error) (packet : Bytes) (tries : List (Option Error × Bytes))
    → (if b then packet ∷ packets tries else packets tries)
      ≡ packets (if b then (write, packet) ∷ tries else tries)
packets-cons true write packet tries = refl
packets-cons false write packet tries = refl
