-- ===== src/Udp/Tests.antt =====
-- A run of the tunnel: a client sends a packet, is silent, and its session ends.
use model_lib.Base.{◌+◌, ◌<◌, true, false, none, [], ◌≡◌, ◌↔◌, refl, arith, Bytes, codes}
use model_lib.Udp.{
  State, TunnelSettings, receive, forward, tick, check_closed, read, timed_out, find,
  get_or_create_session, sweep,
}
use model_lib.Udp.Table.{In}
use model_lib.Udp.Steps.{
  initial, client_packet, client_forward, cleanup, reader_check, Reachable, start, after,
}
use model_lib.Udp.Invariant.{running, IsValid}
use model_lib.Udp.Reach.{Reachable-IsValid, left-ended, tick-In}

abbrev target : Bytes
target = codes "10.0.0.1:53"

abbrev settings : TunnelSettings
settings = record { target = target; enabled = true; duration = 30 }

abbrev client : Bytes
client = codes "127.0.0.1:5000"

abbrev first : State
first = receive target 100 none client initial

abbrev second : State
second = forward 101 0 first

abbrev third : State
third = check_closed 0 second

abbrev last : State
last = tick 131 30 third

first-Reachable : Reachable settings first
first-Reachable = after start (client_packet 100 none client refl refl)

third-Reachable : Reachable settings third
unfolding receive get_or_create_session find forward
third-Reachable =
    after (after first-Reachable (client_forward 101 0 refl refl))
      (reader_check 0 (omega arith) refl refl)

last-Reachable : Reachable settings last
last-Reachable = after third-Reachable (cleanup 131 refl refl)

Reachable-IsValid_example : IsValid last
Reachable-IsValid_example = Reachable-IsValid last-Reachable

last_table : last.table ≡ []
unfolding tick sweep receive get_or_create_session find forward check_closed
last_table = refl

left-ended_example :
    (((check_closed 0 last).heap 0).connected ≡ false)
    × (running ((check_closed 0 last).heap 0).reader ≡ false)
    × (((read 140 timed_out 0 last).heap 0).connected ≡ false)
    × (running ((read 140 timed_out 0 last).heap 0).reader ≡ false)
unfolding tick sweep receive get_or_create_session find forward check_closed
left-ended_example = left-ended last-Reachable 0 140 (omega arith) (λ h. h) refl

tick-In_example :
    (In client 0 (tick 131 30 third).table
      ↔ (In client 0 third.table × (131 < (third.heap 0).last_active + 30)))
    × (In client 0 third.table
        → (In client 0 (tick 131 30 third).table → ⊥)
        → ((tick 131 30 third).heap 0).closed ≡ true)
tick-In_example = tick-In 131 30 third client 0
