-- ===== src/Udp/Packets/Effect.antt =====
-- The turns with packets, by what they do: most leave the main loop and the packets alone.
use model_lib.Base.{ℕ, ◌<◌, Option, ◌∷◌, ◌≡◌, Bytes, Error, Result}
use model_lib.Udp.{
  in_read, listening, holding, State, TunnelSettings, get_or_create_session, receive, tick,
  check_closed, timed_out, failed, read,
}
use model_lib.Udp.Invariant.{IsValid}
use model_lib.Udp.Packets.{
  Traffic, heard, forward_packet, read_packet, Turn, packet_in, packet_on, swept, looked,
  read_nothing, read_failed, packet_back,
}
use model_lib.Udp.Packets.Kept.{Quiet, Quiet-tick, Quiet-check_closed, Quiet-read, Got, receive-Got}

pub data Effect (t t' : Traffic) : Type 0 where
  took :
      (src packet : Bytes) (s : State) (r : Result ℕ)
      → t.state.main ≡ listening
      → Got src t.state s r
      → t' ≡ record { state = s; client = src; buf = packet; trace = heard src packet r ∷ t.trace }
      → Effect t t'
  gave :
      (now : ℕ) (write : Option Error) (id : ℕ)
      → t.state.main ≡ holding id
      → t' ≡ forward_packet now write id t
      → Effect t t'
  silent : (s : State) → Quiet t.state s → t' ≡ record t { state = s } → Effect t t'
  brought :
      (now : ℕ) (packet : Bytes) (resolve write : Option Error) (id : ℕ)
      → id < t.state.next
      → (t.state.heap id).reader ≡ in_read
      → t' ≡ read_packet now packet resolve write id t
      → Effect t t'

pub Turn-Effect :
    {settings : TunnelSettings} {t t' : Traffic}
    → IsValid t.state
    → Turn settings t t'
    → Effect t t'
Turn-Effect {settings = settings} {t = t} v (packet_in now dial src packet idle e) =
    took src packet (receive settings.target now dial src t.state)
      (get_or_create_session settings.target now dial src t.state).1 idle
      (receive-Got settings.target now dial src t.state v) e
Turn-Effect v (packet_on now write id held fails e) = gave now write id held e
Turn-Effect {settings = settings} {t = t} v (swept now on e) =
    silent (tick now settings.duration t.state) (Quiet-tick now settings.duration t.state) e
Turn-Effect {t = t} v (looked id below place e) =
    silent (check_closed id t.state) (Quiet-check_closed id t.state place) e
Turn-Effect {t = t} v (read_nothing now id below place e) =
    silent (read now timed_out id t.state) (Quiet-read now timed_out id t.state place) e
Turn-Effect {t = t} v (read_failed now id below place e) =
    silent (read now failed id t.state) (Quiet-read now failed id t.state place) e
Turn-Effect v (packet_back now packet resolve write id below place e) =
    brought now packet resolve write id below place e
