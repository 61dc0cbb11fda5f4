-- ===== src/Udp/Packets.antt =====
-- udp_proxy.go: the bytes of the packets, which the main loop and the goroutines of the sessions carry
-- between the clients and the connections of the sessions.
pub mod Effect
pub mod Kept
pub mod Written
pub mod Sent
pub mod Answers
pub mod Answered
mod Tests
use model_lib.Base.{
  ℕ, ◌<◌, true, Option, none, some, List, [], ◌∷◌, ◌≡◌, ◌≢◌, false, Bytes, Error, Result, ok, err,
}
use model_lib.Udp.{
  at_top, in_read, listening, holding, State, TunnelSettings, get_or_create_session, receive,
  forward, tick, check_closed, timed_out, failed, received, read,
}
use model_lib.Udp.Steps.{
  initial, Step, client_packet, client_forward, cleanup, reader_check, reader_read, Reachable,
  start, after,
}

-- The packets that go over the connections. `accepted` and `refused` are packets that ReadFromUDP returns,
-- with their client, by whether getOrCreateSession gives a session; `to_remote` is a call of Write on the
-- connection of a session, with the error that it returned, `from_remote` the data of a Read of it;
-- `to_client` is a call of WriteToUDP by the goroutine of a session, with the address.
pub data Event : Type 0 where
  accepted refused : Bytes → Bytes → Event
  to_remote : ℕ → Option Error → Bytes → Event
  from_remote : ℕ → Bytes → Event
  to_client : ℕ → Bytes → Bytes → Event

-- `client` and `buf` are what the last ReadFromUDP has returned. The newest event stands first.
pub record Traffic : Type 0 where
  pub state : State
  pub client : Bytes
  pub buf : Bytes
  pub trace : List Event

abbrev pub heard : Bytes → Bytes → Result ℕ → Event
heard src packet (ok id) = accepted src packet
heard src packet (err e) = refused src packet

abbrev pub receive_packet : Bytes → ℕ → Option Error → Bytes → Bytes → Traffic → Traffic
receive_packet target now dial src packet t = record {
  state = receive target now dial src t.state;
  client = src;
  buf = packet;
  trace = heard src packet (get_or_create_session target now dial src t.state).1 ∷ t.trace;
}

-- An error of Write is only logged: the packet is lost, and the loop goes on.
abbrev pub forward_packet : ℕ → Option Error → ℕ → Traffic → Traffic
forward_packet now write id t = record t {
  state = forward now id t.state;
  trace = to_remote id write t.buf ∷ t.trace;
}

-- The packet is written to the client if ResolveUDPAddr gives its address.
abbrev pub answer : Option Error → ℕ → Bytes → Bytes → List Event → List Event
answer (some e) id src packet trace = trace
answer none id src packet trace = to_client id src packet ∷ trace

abbrev pub read_packet : ℕ → Bytes → Option Error → Option Error → ℕ → Traffic → Traffic
read_packet now packet resolve write id t = record t {
  state = read now (received resolve write) id t.state;
  trace = answer resolve id (t.state.heap id).src packet (from_remote id packet ∷ t.trace);
}

-- Write fails on a connection that was closed.
pub data Turn (settings : TunnelSettings) (t t' : Traffic) : Type 0 where
  packet_in :
      (now : ℕ) (dial : Option Error) (src packet : Bytes)
      → t.state.main ≡ listening
      → t' ≡ receive_packet settings.target now dial src packet t
      → Turn settings t t'
  packet_on :
      (now : ℕ) (write : Option Error) (id : ℕ)
      → t.state.main ≡ holding id
      → ((t.state.heap id).connected ≡ false → write ≢ none)
      → t' ≡ forward_packet now write id t
      → Turn settings t t'
  swept :
      (now : ℕ)
      → settings.enabled ≡ true
      → t' ≡ record t { state = tick now settings.duration t.state }
      → Turn settings t t'
  looked :
      (id : ℕ)
      → id < t.state.next
      → (t.state.heap id).reader ≡ at_top
      → t' ≡ record t { state = check_closed id t.state }
      → Turn settings t t'
  read_nothing :
      (now id : ℕ)
      → id < t.state.next
      → (t.state.heap id).reader ≡ in_read
      → t' ≡ record t { state = read now timed_out id t.state }
      → Turn settings t t'
  read_failed :
      (now id : ℕ)
      → id < t.state.next
      → (t.state.heap id).reader ≡ in_read
      → t' ≡ record t { state = read now failed id t.state }
      → Turn settings t t'
  packet_back :
      (now : ℕ) (packet : Bytes) (resolve write : Option Error) (id : ℕ)
      → id < t.state.next
      → (t.state.heap id).reader ≡ in_read
      → t' ≡ read_packet now packet resolve write id t
      → Turn settings t t'

abbrev pub no_traffic : Traffic
no_traffic = record { state = initial; client = []; buf = []; trace = [] }

pub data Carried (settings : TunnelSettings) : Traffic → Type 0 where
  untouched : Carried settings no_traffic
  turned : {t t' : Traffic} → Carried settings t → Turn settings t t' → Carried settings t'

-- Without their packets, the turns are those of the sessions.
pub Turn-Step :
    {settings : TunnelSettings} {t t' : Traffic}
    → Turn settings t t'
    → Step settings t.state t'.state
Turn-Step (packet_in now dial src packet idle e) =
    client_packet now dial src idle (λ i. (e i).state)
Turn-Step (packet_on now write id held fails e) = client_forward now id held (λ i. (e i).state)
Turn-Step (swept now on e) = cleanup now on (λ i. (e i).state)
Turn-Step (looked id below place e) = reader_check id below place (λ i. (e i).state)
Turn-Step (read_nothing now id below place e) =
    reader_read now timed_out id below place (λ i. (e i).state)
Turn-Step (read_failed now id below place e) =
    reader_read now failed id below place (λ i. (e i).state)
Turn-Step (packet_back now packet resolve write id below place e) =
    reader_read now (received resolve write) id below place (λ i. (e i).state)

pub Carried-Reachable :
    {settings : TunnelSettings} {t : Traffic} → Carried settings t → Reachable settings t.state
Carried-Reachable untouched = start
Carried-Reachable (turned c turn) = after (Carried-Reachable c) (Turn-Step turn)
