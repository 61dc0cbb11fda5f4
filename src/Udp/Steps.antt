-- ===== src/Udp/Steps.antt =====
-- The turns that the main loop, the cleanup and the goroutines of the sessions take, in any order.
use model_lib.Base.{ℕ, ◌<◌, true, Option, [], ◌≡◌, Bytes, Error}
use model_lib.Udp.{
  at_top, in_read, listening, holding, State, TunnelSettings, new_session, receive, forward, tick,
  check_closed, ReadOutcome, read,
}

-- There is no session yet; what the heap holds is of no account.
abbrev pub initial : State
initial = record { heap = λ id. new_session [] 0; next = 0; table = []; main = listening }

pub data Step (settings : TunnelSettings) (s s' : State) : Type 0 where
  client_packet :
      (now : ℕ) (dial : Option Error) (src : Bytes)
      → s.main ≡ listening
      → s' ≡ receive settings.target now dial src s
      → Step settings s s'
  client_forward : (now id : ℕ) → s.main ≡ holding id → s' ≡ forward now id s → Step settings s s'
  cleanup :
      (now : ℕ) → settings.enabled ≡ true → s' ≡ tick now settings.duration s → Step settings s s'
  reader_check :
      (id : ℕ)
      → id < s.next
      → (s.heap id).reader ≡ at_top
      → s' ≡ check_closed id s
      → Step settings s s'
  reader_read :
      (now : ℕ) (outcome : ReadOutcome) (id : ℕ)
      → id < s.next
      → (s.heap id).reader ≡ in_read
      → s' ≡ read now outcome id s
      → Step settings s s'

pub data Reachable (settings : TunnelSettings) : State → Type 0 where
  start : Reachable settings initial
  after : {s s' : State} → Reachable settings s → Step settings s s' → Reachable settings s'
