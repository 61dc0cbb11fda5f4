-- ===== src/Udp/Packets/Tests.antt =====
-- A run of the tunnel with packets: two clients ask, and one of them is answered.
use model_lib.Base.{
  ◌⊎◌, true, none, some, foreign, equal, [], ◌∷◌, ◌++◌, ◌≡◌, refl, arith, Bytes, codes,
}
use model_lib.Udp.{
  TunnelSettings, receive, forward, check_closed, read, pass_on, find, get_or_create_session,
}
use model_lib.Udp.Packets.{
  Traffic, receive_packet, forward_packet, read_packet, packet_in, packet_on, looked, packet_back,
  no_traffic, Carried, untouched, turned,
}
use model_lib.Udp.Packets.Written.{taken, attempts, handed, written, HasFailed, held_for}
use model_lib.Udp.Packets.Sent.{taken-written}
use model_lib.Udp.Packets.Answers.{answers}

abbrev settings : TunnelSettings
settings = record { target = codes "10.0.0.1:53"; enabled = true; duration = 30 }

abbrev alice : Bytes
alice = codes "127.0.0.1:5000"

abbrev bob : Bytes
bob = codes "127.0.0.1:5001"

abbrev asked : Traffic
asked =
    forward_packet 101 none 0
      (receive_packet settings.target 100 none alice (codes "who") no_traffic)

abbrev both : Traffic
both = receive_packet settings.target 102 none bob (codes "what") asked

abbrev waiting : Traffic
waiting = record both { state = check_closed 0 both.state }

abbrev served : Traffic
served = read_packet 103 (codes "me") none none 0 waiting

served-Carried : Carried settings served
unfolding receive get_or_create_session find forward check_closed equal
served-Carried =
    turned
      (turned
        (turned
          (turned (turned untouched (packet_in 100 none alice (codes "who") refl refl))
            (packet_on 101 none 0 refl (λ shut. cc) refl))
          (packet_in 102 none bob (codes "what") refl refl))
        (looked 0 (omega arith) refl refl))
      (packet_back 103 (codes "me") none none 0 (omega arith) refl refl)

served_answers : answers 0 served.trace ≡ (alice, codes "me") ∷ []
unfolding receive get_or_create_session find forward check_closed equal
served_answers = refl

served_held : held_for served.state.main served.client served.buf bob ≡ codes "what" ∷ []
unfolding receive get_or_create_session find forward check_closed equal read pass_on
served_held = refl

taken-written_example :
    (taken alice served.trace
      ≡ held_for served.state.main served.client served.buf alice
        ++ handed served.state.heap alice served.trace)
    × (HasFailed (attempts served.state.heap alice served.trace)
        ⊎ (taken alice served.trace
            ≡ held_for served.state.main served.client served.buf alice
              ++ written (attempts served.state.heap alice served.trace)))
taken-written_example = taken-written served-Carried alice

-- A packet is lost on a connection that does not take it.
abbrev unlucky : Traffic
unlucky = forward_packet 103 (some (foreign (codes "use of closed network connection"))) 1 served

unlucky_written :
    (handed unlucky.state.heap bob unlucky.trace ≡ codes "what" ∷ [])
    × (written (attempts unlucky.state.heap bob unlucky.trace) ≡ [])
unfolding receive get_or_create_session find forward check_closed equal read pass_on
unlucky_written = (refl, refl)
