-- ===== src/Udp.antt =====
-- udp_proxy.go: the sessions of a UDP tunnel. The session objects stand in a heap, since the table, the
-- main loop and the goroutine of a session share them; the goroutines take turns step by step.
pub mod Table
pub mod Steps
pub mod Invariant
mod Finish
pub mod Packets
pub mod Reach
pub mod Spawn
pub mod Sweep
mod Tests
use model_lib.Base.{
  ℕ, ◌+◌, Bool, true, false, Option, none, some, List, [], ◌∷◌, ◌++◌, leb, ◌==◌, if◌then◌else◌,
  Bytes, codes, equal, Error, wrapped, Result, ok, err,
}

-- Where the goroutine of a session is: at the top of its loop, in Read, or returned.
pub data Reader : Type 0 where
  at_top in_read ended : Reader

-- `closed` says that closeChan is closed, `connected` that remoteConn is not. `src` is the address that the
-- goroutine was started with. Times are nanoseconds.
pub record UdpSession : Type 0 where
  pub src : Bytes
  pub last_active : ℕ
  pub closed : Bool
  pub reader : Reader
  pub connected : Bool

-- Where the main loop is: in ReadFromUDP, or about to forward a packet to a session.
pub data MainLoop : Type 0 where
  listening : MainLoop
  holding : ℕ → MainLoop

abbrev pub Table : Type 0
Table = List (Bytes × ℕ)

-- The sessions below `next` exist. `table` is the map `sessions`, by the numbers of the sessions.
pub record State : Type 0 where
  pub heap : ℕ → UdpSession
  pub next : ℕ
  pub table : Table
  pub main : MainLoop

-- `conf.Target`, `conf.InactivityTimeout > 0`, and `inactivityDur`
pub record TunnelSettings : Type 0 where
  pub target : Bytes
  pub enabled : Bool
  pub duration : ℕ

unfoldable pub find : Table → Bytes → Option ℕ
find [] src = none
find ((key, id) ∷ table) src = let rest = find table src in if equal key src then some id else rest

unfoldable pub delete : Table → Bytes → Table
delete [] src = []
delete ((key, id) ∷ table) src =
    let rest = delete table src in if equal key src then rest else (key, id) ∷ rest

abbrev pub modify : ℕ → (UdpSession → UdpSession) → (ℕ → UdpSession) → ℕ → UdpSession
modify id change heap other = if id == other then change (heap other) else heap other

abbrev pub touch : ℕ → UdpSession → UdpSession
touch now s = record s { last_active = now }

abbrev pub close_session_chan : UdpSession → UdpSession
close_session_chan s = record s { closed = true }

abbrev pub new_session : Bytes → ℕ → UdpSession
new_session src now = record {
  src = src;
  last_active = now;
  closed = false;
  reader = at_top;
  connected = true;
}

-- A session of the table is used again; else the target is dialled, with the error `dial` if there is
-- one.
unfoldable pub get_or_create_session : Bytes → ℕ → Option Error → Bytes → State → State × Result ℕ
get_or_create_session target now dial src s = elim (find s.table src) [
  | some id ↦ (record s { heap = modify id (touch now) s.heap }, ok id)
  | none ↦ elim dial [
    | some e ↦ (s, err (wrapped (codes "UDPProxyTunnel: could not Dial(" ++ target ++ codes ")") e))
    | none ↦ (
      record s {
        heap = modify s.next (λ old. new_session src now) s.heap;
        next = s.next + 1;
        table = (src, s.next) ∷ s.table;
      },
      ok s.next,
    )
  ]
]

-- A packet of a client, up to the session that it goes to.
abbrev pub hold : State × Result ℕ → State
hold (s, ok id) = record s { main = holding id }
hold (s, err e) = s

unfoldable pub receive : Bytes → ℕ → Option Error → Bytes → State → State
receive target now dial src s = hold (get_or_create_session target now dial src s)

-- The rest of the turn of the main loop. An error of the write is only logged.
unfoldable pub forward : ℕ → ℕ → State → State
forward now id s = record s { heap = modify id (touch now) s.heap; main = listening }

-- `now.Sub(sess.lastActive) >= inactivityDur`
abbrev pub expired : ℕ → ℕ → UdpSession → Bool
expired now duration sess = leb (sess.last_active + duration) now

-- The loop over the sessions.
unfoldable pub sweep : ℕ → ℕ → Table → (ℕ → UdpSession) → Table × (ℕ → UdpSession)
sweep now duration [] heap = ([], heap)
sweep now duration ((key, id) ∷ table) heap =
    let dead = expired now duration (heap id) in
    let rest =
      sweep now duration table (if dead then modify id close_session_chan heap else heap) in
    if dead then rest else ((key, id) ∷ rest.0, rest.1)

unfoldable pub tick : ℕ → ℕ → State → State
tick now duration s =
    let (table, heap) = sweep now duration s.table s.heap in record s { table = table; heap = heap }

unfoldable pub remove_session : Bytes → ℕ → State → State
remove_session src id s = elim (find s.table src) [
  | none ↦ s
  | some current ↦
      if current == id
      then record s { heap = modify id close_session_chan s.heap; table = delete s.table src }
      else s
]

abbrev pub retire : UdpSession → UdpSession
retire s = record s { reader = ended; connected = false }

abbrev pub go_to : Reader → UdpSession → UdpSession
go_to place s = record s { reader = place }

-- The deferred function: the session leaves the table if it still stands there, and its connection is
-- closed.
unfoldable pub finish : ℕ → State → State
finish id s =
    let s' = remove_session (s.heap id).src id s in record s' { heap = modify id retire s'.heap }

-- The select at the top of the loop.
unfoldable pub check_closed : ℕ → State → State
check_closed id s =
    if (s.heap id).closed then finish id s else record s { heap = modify id (go_to in_read) s.heap }

-- How Read ends; for data, the errors of ResolveUDPAddr and of WriteToUDP.
pub data ReadOutcome : Type 0 where
  timed_out failed : ReadOutcome
  received : Option Error → Option Error → ReadOutcome

-- What stands behind a Read with data.
unfoldable pub pass_on : Option Error → Option Error → ℕ → State → State
pass_on (some e) write id s = finish id s
pass_on none (some e) id s = finish id s
pass_on none none id s = record s { heap = modify id (go_to at_top) s.heap }

unfoldable pub read : ℕ → ReadOutcome → ℕ → State → State
read now timed_out id s =
    if (s.heap id).closed then finish id s else record s { heap = modify id (go_to at_top) s.heap }
read now failed id s = finish id s
read now (received resolve write) id s =
    pass_on resolve write id (record s { heap = modify id (touch now) s.heap })
