-- ===== src/Routine/Pings.antt =====
-- routine.go: `pingIPs`, with the goroutines that wait for the replies. A round sends the pings; a goroutine
-- takes its turn when its Read returns.
pub mod Matches
pub mod Answered
pub mod Ready
mod Tests
use model_lib.Base.{
  ℕ, zero, suc, ◌+◌, ◌*◌, Bool, true, false, ◌&&◌, ◌||◌, Option, none, some, List, [], ◌∷◌, ◌++◌,
  ◌==◌, if◌then◌else◌, Bytes, equal, Error, Result, ok, err, ◌>>=◌,
}
use model_lib.Config.Types.{Addr}
use model_lib.Routine.{PingRecord, put_record, start_ping_ips}

-- icmp.Echo; its identifier is left to the network stack.
pub record Echo : Type 0 where
  pub seq : ℕ
  pub content : Bytes

-- The body of an icmp.Message; `other` is of any other type.
pub data Body : Type 0 where
  echo : Echo → Body
  raw_body : Bytes → Body
  other : Body

-- What the ping of one address meets: the errors of Dial and Write, and the random request.
pub record Probe : Type 0 where
  pub dial_error : Option Error
  pub request : Echo
  pub write_error : Option Error

-- A request that was sent, with a goroutine that waits for the reply.
pub record Ping : Type 0 where
  pub addr : Addr
  pub request : Echo

after_dial : Addr → Probe → List Ping
after_dial addr probe =
    if addr.is4 || addr.is6
    then elim probe.write_error [
      | some e ↦ []
      | none ↦ record { addr = addr; request = probe.request } ∷ []
    ]
    else []

-- One turn of the loop over the addresses. A failure is logged, and the loop goes on.
pub ping_ip : Addr → Probe → List Ping
unfolding after_dial
ping_ip addr probe = elim probe.dial_error [ some e ↦ [] | none ↦ after_dial addr probe ]

-- `probes` is by the place of the address in the list, from `place` on.
pub ping_ips : (ℕ → Probe) → ℕ → List Addr → List Ping
ping_ips probes place [] = []
ping_ips probes place (addr ∷ addrs) =
    ping_ip addr (probes place) ++ ping_ips probes (place + 1) addrs

-- A slice beyond the end of the reply would be a panic, which ends the program.
pub data Verdict : Type 0 where
  accepted refused panics : Verdict

abbrev pub same_echo : Echo → Bytes → ℕ → Verdict
same_echo request content seq =
    if equal content request.content && seq == request.seq then accepted else refused

-- `if addr.Is4()`
pub check_v4 : Bool → Echo → Body → Verdict
check_v4 true request (echo reply) = same_echo request reply.content reply.seq
check_v4 true request (raw_body content) = refused
check_v4 true request other = refused
check_v4 false request body = accepted

-- `if addr.Is6()`: the bytes of an echo reply behind its checksum.
pub check_v6 : Bool → Echo → Body → Verdict
check_v6 true request (raw_body (i ∷ j ∷ high ∷ low ∷ pong_body)) =
    same_echo request pong_body (high * 256 + low)
check_v6 true request (raw_body _) = panics
check_v6 true request (echo reply) = refused
check_v6 true request other = refused
check_v6 false request body = accepted

pub check_reply : Ping → Body → Verdict
unfolding check_v4 check_v6
check_reply ping body = elim (check_v4 ping.addr.is4 ping.request body) [
  | accepted ↦ check_v6 ping.addr.is6 ping.request body
  | refused ↦ refused
  | panics ↦ panics
]

-- The records, and the pings whose goroutines wait.
pub record State : Type 0 where
  pub records : PingRecord
  pub waiting : List Ping

abbrev pub started : List Addr → State
started addrs = record { records = start_ping_ips addrs []; waiting = [] }

-- A round of `pingIPs`; or the goroutine of the ping at a place goes on, with what Read and ParseMessage
-- return, at a time in seconds.
pub data Event : Type 0 where
  round : (ℕ → Probe) → Event
  reply : ℕ → Result Body → ℕ → Event

pub waiting_at : ℕ → List Ping → Option Ping
waiting_at place [] = none
waiting_at zero (ping ∷ pings) = some ping
waiting_at (suc place) (ping ∷ pings) = waiting_at place pings

pub remove_at : ℕ → List Ping → List Ping
remove_at place [] = []
remove_at zero (ping ∷ pings) = pings
remove_at (suc place) (ping ∷ pings) = ping ∷ remove_at place pings

pub take_verdict : Verdict → Ping → ℕ → PingRecord → Option PingRecord
take_verdict accepted ping time records = some (put_record ping.addr.string time records)
take_verdict refused ping time records = some records
take_verdict panics ping time records = none

pub take_reply : Result Body → Ping → ℕ → PingRecord → Option PingRecord
unfolding take_verdict check_reply
take_reply (err e) ping time records = some records
take_reply (ok body) ping time records = take_verdict (check_reply ping body) ping time records

abbrev pub with_records : State → List Ping → Option PingRecord → Option State
with_records s pings none = none
with_records s pings (some records) = some (record { records = records; waiting = pings })

-- `none` means that the program has ended. A place where nobody waits changes nothing.
pub step : List Addr → Event → State → Option State
unfolding take_reply
step addrs (round probes) s = some (record s { waiting = s.waiting ++ ping_ips probes 0 addrs })
step addrs (reply place result time) s = elim (waiting_at place s.waiting) [
  | none ↦ some s
  | some ping ↦ with_records s (remove_at place s.waiting) (take_reply result ping time s.records)
]
