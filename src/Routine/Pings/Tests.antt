-- ===== src/Routine/Pings/Tests.antt =====
-- Runs of the pings.
use model_lib.Base.{true, false, none, some, List, [], ◌∷◌, ◌≡◌, refl, codes, equal, ok}
use model_lib.Config.Types.{Addr}
use model_lib.Routine.Pings.{
  Echo, echo, raw_body, Probe, check_v4, check_v6, check_reply, State, Event, round, reply,
  waiting_at, remove_at, take_verdict, take_reply, step,
}
use model_lib.Routine.Pings.Answered.{Answered}

abbrev addr : Addr
addr = record { string = codes "10.0.0.2"; is4 = true; is6 = false }

abbrev other_addr : Addr
other_addr = record { string = codes "fd00::2"; is4 = false; is6 = true }

abbrev request : Echo
request = record { seq = 258; content = 7 ∷ 9 ∷ [] }

abbrev probe : Probe
probe = record { dial_error = none; request = request; write_error = none }

abbrev addrs : List Addr
addrs = addr ∷ other_addr ∷ []

abbrev pinged : State
pinged = record {
  records = (codes "10.0.0.2", 0) ∷ (codes "fd00::2", 0) ∷ [];
  waiting =
      record { addr = addr; request = request }
      ∷ record { addr = other_addr; request = request }
      ∷ [];
}

abbrev answered : State
answered = record {
  records = (codes "10.0.0.2", 0) ∷ (codes "fd00::2", 999) ∷ [];
  waiting = record { addr = addr; request = request } ∷ [];
}

abbrev all_answered : State
all_answered = record {
  records = (codes "10.0.0.2", 1000) ∷ (codes "fd00::2", 999) ∷ [];
  waiting = [];
}

-- Both addresses are pinged, the second answers, and then the first. The last event stands first.
abbrev history : List Event
history =
    reply 0 (ok (echo request)) 1000
    ∷ reply 1 (ok (raw_body (0 ∷ 0 ∷ 1 ∷ 2 ∷ 7 ∷ 9 ∷ []))) 999
    ∷ round (λ place. probe)
    ∷ []

-- Another request's echo is not taken.
other_echo :
    step addrs (reply 0 (ok (echo (record { seq = 1; content = 7 ∷ [] }))) 1001) answered
    ≡ some (record answered { waiting = [] })
unfolding step waiting_at remove_at take_reply take_verdict check_reply check_v4 check_v6 equal
other_echo = refl
